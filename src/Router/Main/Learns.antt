-- ===== src/Router/Main/Learns.antt =====
-- The rounds of an ARP exchange in Tema_1/router.c: a router answers a request, and learns from a
-- reply.
use communication_protocols.Base.{
  ℕ, ◌^◌, ◌<◌, ◌≡◌, refl, subst, ◌∙◌, true, none, some, List, [], ◌∷◌, arith, length,
}
use communication_protocols.Router.Bytes.{Payload, htons}
use communication_protocols.Router.Hex.{hwaddr_aton}
use communication_protocols.Router.Route.{RouteTable}
use communication_protocols.Router.Arp.{ArpEntry, get_arp_entry, learn}
use communication_protocols.Router.Arp.Table.{get_arp_entry-learn}
use communication_protocols.Router.Queue.Interface.{Fifo}
use communication_protocols.Router.Frames.{
  Packet, Sent, parse_arp, ethertype_arp, arpop_request, arpop_reply,
}
use communication_protocols.Router.Frames.Arp.{arrives, ArpFields, send_arp-ArpFields}
use communication_protocols.Router.Headers.{daddr, ether_type, sha, spa}
use communication_protocols.Router.Main.{
  best_route, forward, Env, State, broadcast, arp_request, arp_reply, is_arp_request, handle_arp,
  round,
}
use communication_protocols.Router.Main.Arp.{
  Retains, IsLive, Released, nothing, last_copy, HasRoom, ArpOutcome, answered, ignored, learnt,
  handle_arp-ArpOutcome,
}

broadcast-length : length broadcast ≡ 6
unfolding broadcast hwaddr_aton
broadcast-length = refl

parsed_arp : (p : Payload) → ether_type p ≡ htons ethertype_arp → parse_arp p ≡ some 14
unfolding parse_arp
parsed_arp p e = ground arith

module _ (env : Env) (r : RouteTable) (p : Payload) (j : ℕ)
    (six : length (env.interface_mac r.interface) ≡ 6) (to : r.next_hop < 2 ^ 32)
    (by : env.interface_ip r.interface < 2 ^ 32) where
  -- The fields of a request for the next hop of `r`.
  pub arp_request-ArpFields :
      ArpFields
        (arrives p j (arp_request env r)).payload
        r.next_hop
        (env.interface_ip r.interface)
        (htons ethertype_arp)
        (htons arpop_request)
        (env.interface_mac r.interface)
  unfolding arp_request
  arp_request-ArpFields =
      send_arp-ArpFields p r.next_hop (env.interface_ip r.interface)
        (record {
          ether_dhost = broadcast;
          ether_shost = env.interface_mac r.interface;
          ether_type = htons ethertype_arp;
        })
        r.interface (htons arpop_request) broadcast-length six to by (omega arith) (omega arith)

-- An ARP packet is one for handle_arp.
round-handle_arp :
    (fifo : Fifo ℕ) (env : Env) (rtable : List RouteTable) (s : State fifo) (m : Packet)
    → ether_type m.payload ≡ htons ethertype_arp
    → round fifo env rtable s m ≡ handle_arp fifo env rtable s m
unfolding round
round-handle_arp fifo env rtable s m e = rw (e, round) refl

-- A request for the address of the interface that it comes in by.
module _ (fifo : Fifo ℕ) (env : Env) (rtable : List RouteTable) (s : State fifo) (m : Packet)
    (source : ℕ) (mac : List ℕ)
    (request : ArpFields m.payload
      (env.interface_ip m.interface)
      source
      (htons ethertype_arp)
      (htons arpop_request)
      mac) where
  asked : is_arp_request env m ≡ true
  unfolding is_arp_request
  asked = ground (arith, request.tpa_back, request.op_back)

  is_arp : ether_type m.payload ≡ htons ethertype_arp
  is_arp = request.type_back

  handled : handle_arp fifo env rtable s m ≡ some (s, arp_reply env m ∷ [])
  unfolding handle_arp
  handled = rw (parsed_arp m.payload is_arp, asked, handle_arp) (rw request.op_back refl)

  pub answer : round fifo env rtable s m ≡ some (s, arp_reply env m ∷ [])
  answer = round-handle_arp fifo env rtable s m is_arp ∙ handled

module _ (env : Env) (m : Packet) (q : Payload) (i source : ℕ) (mac : List ℕ)
    (request : ArpFields m.payload
      (env.interface_ip m.interface)
      source
      (htons ethertype_arp)
      (htons arpop_request)
      mac)
    (six : length mac ≡ 6) (six' : length (env.interface_mac m.interface) ≡ 6)
    (to : env.interface_ip m.interface < 2 ^ 32) (by : source < 2 ^ 32) where
  -- The fields of the answer.
  pub arp_reply-ArpFields :
      ArpFields
        (arrives q i (arp_reply env m)).payload
        source
        (env.interface_ip m.interface)
        (htons ethertype_arp)
        (htons arpop_reply)
        (env.interface_mac m.interface)
  unfolding arp_reply
  arp_reply-ArpFields =
      rw (request.type_back, request.spa_back, request.tpa_back, request.shost_back)
        (send_arp-ArpFields q source (env.interface_ip m.interface)
          (record {
            ether_dhost = mac;
            ether_shost = env.interface_mac m.interface;
            ether_type = htons ethertype_arp;
          })
          m.interface (htons arpop_reply) six six' by to (omega arith) (omega arith))

module _ (fifo : Fifo ℕ) (env : Env) (rtable : List RouteTable) (n : ℕ) where
  Released-table :
      (s s' : State fifo) (mac : List ℕ) (sent : List Sent)
      → Released fifo env rtable n s mac s' sent
      → s'.arp_table ≡ s.arp_table
  Released-table s s' mac sent (nothing e) = refl
  Released-table s s' mac sent (last_copy r t some_left best same slot live) = same

  -- If something was queued, the frame that leaves is the packet in the slot, by its route, to `mac`.
  abbrev pub Frees : State fifo → List ℕ → List Sent → Type 0
  Frees s mac sent =
      0 < n
      → (r : RouteTable) × (best_route rtable (daddr s.slot.payload) ≡ some (some r))
        × (sent ≡ forward env r mac s.slot ∷ [])

  Released-Frees :
      (s s' : State fifo) (mac : List ℕ) (sent : List Sent)
      → Released fifo env rtable n s mac s' sent
      → Frees s mac sent
  Released-Frees s s' mac sent (nothing e) h = absurd (omega arith)
  Released-Frees s s' mac sent (last_copy r t some_left best same slot live) h = (r, best, refl)

-- The entry that a look-up gives once an answer for `ip` from `mac` was stored.
abbrev pub known : List ArpEntry → ℕ → List ℕ → ArpEntry
known table ip mac = elim (get_arp_entry table ip) [
  | none ↦ record { ip = ip; mac = mac }
  | some e ↦ e
]

learn-known :
    (table table' : List ArpEntry) (ip : ℕ) (mac : List ℕ)
    → learn table ip mac ≡ some table'
    → get_arp_entry table' ip ≡ some (known table ip mac)
learn-known table table' ip mac e = ground (arith, get_arp_entry-learn table table' ip ip mac e)

module _ (fifo : Fifo ℕ) (env : Env) (rtable : List RouteTable) (retains : Retains env) (n : ℕ)
    (s : State fifo) (m : Packet) (source target : ℕ) (mac : List ℕ)
    (live : IsLive fifo env rtable n s)
    (reply : ArpFields m.payload target source (htons ethertype_arp) (htons arpop_reply) mac)
    (room : HasRoom s.arp_table m) where
  -- The round of a reply leaves the sender in the table, and frees what is queued.
  pub learns :
      (s' : State fifo) × (sent : List Sent) × (round fifo env rtable s m ≡ some (s', sent))
      × (get_arp_entry s'.arp_table source ≡ some (known s.arp_table source mac))
      × Frees fifo env rtable n s mac sent
  learns =
      let (s', sent, ok, outcome) =
        handle_arp-ArpOutcome fifo env rtable n s m (λ o. retains) live
          (omega (arith, reply.type_back)) room in
      (
        s',
        sent,
        round-handle_arp fifo env rtable s m reply.type_back ∙ ok,
        stored s' sent outcome,
        freed s' sent outcome,
      )
    where
      stored :
          (s' : State fifo) (sent : List Sent)
          → ArpOutcome fifo env rtable n s m s' sent
          → get_arp_entry s'.arp_table source ≡ some (known s.arp_table source mac)
      stored s' sent (answered frame here asks by bytes) =
          absurd (omega (arith, asks, reply.op_back))
      stored s' sent (ignored no_request no_reply) = absurd (no_reply reply.op_back)
      stored s' sent (learnt table t more is_reply done live' released) =
          let learnt_table : get_arp_entry table (spa m.payload)
              ≡ some (known s.arp_table (spa m.payload) (sha m.payload)) =
            learn-known s.arp_table table (spa m.payload) (sha m.payload) done in
          let same : t.arp_table ≡ table =
            Released-table fifo env rtable n (record s { arp_table = table }) t (sha m.payload) more
              released in
          rw (same, ← reply.spa_back, ← reply.sha_back) learnt_table

      freed :
          (s' : State fifo) (sent : List Sent)
          → ArpOutcome fifo env rtable n s m s' sent
          → Frees fifo env rtable n s mac sent
      freed s' sent (answered frame here asks by bytes) =
          absurd (omega (arith, asks, reply.op_back))
      freed s' sent (ignored no_request no_reply) = absurd (no_reply reply.op_back)
      freed s' sent (learnt table t more is_reply done live' released) =
          subst (λ a. Frees fifo env rtable n s a more) reply.sha_back
            (Released-Frees fifo env rtable n (record s { arp_table = table }) t (sha m.payload)
              more released)
