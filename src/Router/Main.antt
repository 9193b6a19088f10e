-- ===== src/Router/Main.antt =====
-- The main loop of Tema_1/router.c: what one round does with the packet that get_packet received. A
-- round takes the state and gives the new one with the frames sent, in order; `none` is undefined
-- behaviour (a write behind the ARP table, a NULL route, a fault of the queue).
--
-- `main` puts the address of its block's local `p` into the queue, and reads through it in a later
-- round, when `p` is dead. The address is the same in each round. `slot` is what was copied to `p`
-- last, and `dead_read` is what the read through the dead pointer gives, which C leaves open.
pub mod Hop
pub mod Outcome
pub mod Ip
pub mod Arp
pub mod Kept
pub mod Trace
pub mod Learns
pub mod Exchange
pub mod Delivery
use communication_protocols.Base.{
  codes, ℕ, suc, ◌+◌, ◌-◌, ◌%◌, ◌≤◌, ◌≡◌, Bool, true, false, ◌&&◌, Option, none, some, List, [],
  ◌∷◌, ◌++◌, leb, ◌==◌, if◌then◌else◌, get_elem?,
}
use communication_protocols.Router.Bytes.{
  Payload, put, store, slice, load16, load32, bytes16, htons,
}
use communication_protocols.Router.Hex.{hwaddr_aton}
use communication_protocols.Router.Checksum.{ip_checksum}
use communication_protocols.Router.Headers.{
  ether_type, ether_dhost, ether_shost, ttl, saddr, daddr, op, sha, spa, tpa, ip_header,
  update_header, readdress,
}
use communication_protocols.Router.Route.{
  RouteTable, Found, found, null, out_of_bounds, out_of_fuel, get_best_route,
}
use communication_protocols.Router.Arp.{ArpEntry, get_arp_entry, learn}
use communication_protocols.Router.Queue.Interface.{Fifo}
use communication_protocols.Router.Frames.{
  Packet, Sent, EtherHeader, send_packet, send_icmp, send_icmp_error, send_arp, parse_arp,
  parse_icmp, ethertype_ip, ethertype_arp, icmp_echo, icmp_echoreply, icmp_time_exceeded,
  icmp_dest_unreach, arpop_request, arpop_reply,
}

-- What the loop asks of the system: the address of an interface (inet_addr of get_interface_ip) and
-- its hardware address, getpid, the addresses of send_icmp's local header, of the received payload and
-- of `p`, and the read of the dead `p`.
pub record Env : Type 0 where
  pub interface_ip : ℕ → ℕ
  pub interface_mac : ℕ → List ℕ
  pub getpid : ℕ
  pub hdr_addr : ℕ
  pub payload_addr : ℕ
  pub p_addr : ℕ
  pub dead_read : Packet → Packet

-- hwaddr_aton("ff:ff:ff:ff:ff:ff:ff", …)
unfoldable pub broadcast : List ℕ
broadcast = (hwaddr_aton (codes "ff:ff:ff:ff:ff:ff:ff")).0

module _ (fifo : Fifo ℕ) where
  pub record State : Type 0 where
    pub arp_table : List ArpEntry
    pub queue : fifo.Carrier
    pub slot : Packet

  abbrev pub Outcome : Type 0
  Outcome = Option (State × List Sent)

-- The entry that get_best_route points to; `none` is a fault of the search.
unfoldable pub best_route : List RouteTable → ℕ → Option (Option RouteTable)
best_route rtable dest = elim (get_best_route rtable dest) [
  | null ↦ some none
  | found k ↦ elim (get_elem? rtable k) [ none ↦ none | some r ↦ some (some r) ]
  | out_of_bounds ↦ none
  | out_of_fuel ↦ none
]

module _ (env : Env) where
  -- An ICMP echo request for the interface that the packet came in by.
  unfoldable pub is_echo_request : Packet → Bool
  is_echo_request m = elim (parse_icmp m.payload) [
    | none ↦ false
    | some i ↦
        (daddr m.payload == env.interface_ip m.interface)
        && ((m.payload i == icmp_echo) && (m.payload (i + 1) == 0))
  ]

  unfoldable pub echo_reply : Packet → Sent
  echo_reply m =
      send_icmp env.hdr_addr (saddr m.payload) (daddr m.payload) (ether_dhost m.payload)
        (ether_shost m.payload) icmp_echoreply 0 m.interface (htons env.getpid) 0

  unfoldable pub icmp_error : ℕ → Packet → Sent
  icmp_error type m =
      send_icmp_error env.hdr_addr (saddr m.payload) (daddr m.payload) (ether_dhost m.payload)
        (ether_shost m.payload) type 0 m.interface

  unfoldable pub arp_request : RouteTable → Sent
  arp_request route =
      let eth : EtherHeader = record {
        ether_dhost = broadcast;
        ether_shost = env.interface_mac route.interface;
        ether_type = htons ethertype_arp;
      } in
      send_arp route.next_hop (env.interface_ip route.interface) eth route.interface
        (htons arpop_request)

  unfoldable pub forward : RouteTable → List ℕ → Packet → Sent
  forward route mac m =
      send_packet route.interface
        (record m { payload = readdress (env.interface_mac route.interface) mac m.payload })

  -- The packet of the round once its header is updated.
  unfoldable pub hop : Packet → Packet
  hop m = record m { payload = update_header (env.payload_addr + 14) m.payload }

  unfoldable pub arp_reply : Packet → Sent
  arp_reply m =
      let eth : EtherHeader = record {
        ether_dhost = ether_shost m.payload;
        ether_shost = env.interface_mac m.interface;
        ether_type = ether_type m.payload;
      } in
      send_arp (spa m.payload) (tpa m.payload) eth m.interface (htons arpop_reply)

  -- *(packet*)queue_deq(queue)
  unfoldable pub read_packet : ℕ → Packet → Option Packet
  read_packet ptr slot = if ptr == env.p_addr then some (env.dead_read slot) else none

  unfoldable pub is_arp_request : Packet → Bool
  is_arp_request m =
      (tpa m.payload == env.interface_ip m.interface) && (op m.payload == htons arpop_request)

module _ (env : Env) (rtable : List RouteTable) where
  -- A queued packet leaves by the route of its destination, to the hardware address of the reply.
  -- A NULL route is dereferenced.
  unfoldable pub release : Packet → List ℕ → Option Sent
  release aux mac = elim (best_route rtable (daddr aux.payload)) [
    | none ↦ none
    | some none ↦ none
    | some (some route) ↦ some (forward env route mac aux)
  ]

module _ (fifo : Fifo ℕ) (env : Env) (rtable : List RouteTable) where
  -- No entry for the destination: ask for the next hop, and keep a copy.
  unfoldable pub enqueue : State fifo → RouteTable → Packet → Outcome fifo
  enqueue s route m = elim (fifo.enq env.p_addr s.queue) [
    | none ↦ none
    | some q ↦ some (record s { queue = q; slot = m }, arp_request env route ∷ [])
  ]

  unfoldable pub send_on : State fifo → RouteTable → Packet → Outcome fifo
  send_on s route m = elim (get_arp_entry s.arp_table (daddr m.payload)) [
    | none ↦ enqueue s route m
    | some entry ↦ some (s, forward env route entry.mac m ∷ [])
  ]

  unfoldable pub handle_ip : State fifo → Packet → Outcome fifo
  handle_ip s m =
      if is_echo_request env m
      then some (s, echo_reply env m ∷ [])
      else if leb (ttl m.payload) 1
      then some (s, icmp_error env icmp_time_exceeded m ∷ [])
      else if ip_checksum (env.payload_addr + 14) (ip_header m.payload) == 0
      then (elim (best_route rtable (daddr m.payload)) [
        | none ↦ none
        | some none ↦ some (s, icmp_error env icmp_dest_unreach m ∷ [])
        | some (some route) ↦ send_on s route (hop env m)
      ])
      else some (s, [])

  unfoldable pub dequeue : State fifo → List ℕ → Outcome fifo
  dequeue s mac = if fifo.is_empty s.queue then some (s, []) else elim (fifo.deq s.queue) [
    | none ↦ none
    | some (ptr, q) ↦ elim (read_packet env ptr s.slot) [
      | none ↦ none
      | some aux ↦ elim (release env rtable aux mac) [
        | none ↦ none
        | some sent ↦ some (record s { queue = q }, sent ∷ [])
      ]
    ]
  ]

  unfoldable pub handle_reply : State fifo → Packet → Outcome fifo
  handle_reply s m = elim (learn s.arp_table (spa m.payload) (sha m.payload)) [
    | none ↦ none
    | some table ↦ dequeue (record s { arp_table = table }) (sha m.payload)
  ]

  -- The answer to a request is sent first; no packet is both a request and a reply.
  unfoldable pub handle_arp : State fifo → Packet → Outcome fifo
  handle_arp s m = elim (parse_arp m.payload) [
    | none ↦ some (s, [])
    | some _ ↦
        let answer : List Sent = if is_arp_request env m then arp_reply env m ∷ [] else [] in
        if op m.payload == htons arpop_reply
        then (elim (handle_reply s m) [ none ↦ none | some (s', sent) ↦ some (s', answer ++ sent) ])
        else some (s, answer)
  ]

  unfoldable pub round : State fifo → Packet → Outcome fifo
  round s m =
      if ether_type m.payload == htons ethertype_ip
      then handle_ip s m
      else if ether_type m.payload == htons ethertype_arp
      then handle_arp s m
      else some (s, [])

  -- The rounds over the packets received, and all frames sent.
  unfoldable pub run : State fifo → List Packet → Outcome fifo
  run s [] = some (s, [])
  run s (m ∷ ms) = elim (round s m) [
    | none ↦ none
    | some (s', sent) ↦ elim (run s' ms) [
      | none ↦ none
      | some (s'', more) ↦ some (s'', sent ++ more)
    ]
  ]
