-- ===== src/Router/Main/Arp.antt =====
-- ARP packets in a round of Tema_1/router.c: answers to requests, and what a reply releases.
use communication_protocols.Base.{
  ℕ, zero, suc, ◌-◌, ◌<◌, ◌≡◌, ◌≢◌, inl, inr, refl, true, false, none, some, List, [], ◌∷◌, ◌++◌,
  append_assoc, arith, ◌==◌, ==_iff, Bool-cases, Option-cases, replicate,
}
use communication_protocols.Router.Bytes.{htons, slice, load32, bytes16, bytes32}
use communication_protocols.Router.Bytes.Store.{length-slice}
use communication_protocols.Router.Route.{RouteTable}
use communication_protocols.Router.Arp.{ArpEntry, learn}
use communication_protocols.Router.Arp.Table.{learn-IsArpTable, learn-HasMacs}
use communication_protocols.Router.Queue.Interface.{Fifo}
use communication_protocols.Router.Frames.{
  Packet, Sent, parse_arp, send_arp, ethertype_arp, arpop_request, arpop_reply,
}
use communication_protocols.Router.Main.{
  Env, State, Outcome, forward, best_route, arp_reply, read_packet, release, dequeue, handle_reply,
  is_arp_request, handle_arp,
}
use communication_protocols.Router.Headers.{ether_type, daddr, op, sha, spa, tpa}
use communication_protocols.Router.Main.Outcome.{IsRouter}

-- The storage of `p` keeps what was copied there when its block is left.
abbrev pub Retains : Env → Type 0
Retains env = (m : Packet) → env.dead_read m ≡ m

-- A packet that has a route.
abbrev pub Routed : List RouteTable → Packet → Type 0
Routed rtable m = (r : RouteTable) × (best_route rtable (daddr m.payload) ≡ some (some r))

module _ (fifo : Fifo ℕ) (env : Env) (rtable : List RouteTable) where
  -- The invariant of the loop: IsRouter, and while something is queued, `p` holds a packet that has
  -- a route.
  pub record IsLive (n : ℕ) (s : State fifo) : Type 0 where
    pub router : IsRouter fifo env n s
    pub routed : 0 < n → Routed rtable s.slot

-- What a reply with the hardware address `mac` releases from a queue of `n` pointers in state `s`.
module _ (fifo : Fifo ℕ) (env : Env) (rtable : List RouteTable) (n : ℕ) (s : State fifo)
    (mac : List ℕ) where
  pub data Released : State fifo → List Sent → Type 0 where
    nothing : n ≡ 0 → Released s []
    last_copy :
        (r : RouteTable) (s' : State fifo)
        → 0 < n
        → best_route rtable (daddr s.slot.payload) ≡ some (some r)
        → s'.arp_table ≡ s.arp_table
        → s'.slot ≡ s.slot
        → IsLive fifo env rtable (n - 1) s'
        → Released s' (forward env r mac s.slot ∷ [])

module _ (fifo : Fifo ℕ) (env : Env) (rtable : List RouteTable) (retains : Retains env) where
  read_packet-slot : (slot : Packet) → read_packet env env.p_addr slot ≡ some slot
  unfolding read_packet
  read_packet-slot slot = let e : env.dead_read slot ≡ slot = retains slot in ground arith

  release-forward :
      (slot : Packet) (mac : List ℕ) (r : RouteTable)
      → best_route rtable (daddr slot.payload) ≡ some (some r)
      → release env rtable slot mac ≡ some (forward env r mac slot)
  unfolding release
  release-forward slot mac r e = rw (e, release)

  filled :
      (n : ℕ) (q : fifo.Carrier)
      → fifo.Holds q (replicate (suc n) env.p_addr)
      → fifo.is_empty q ≡ false
  filled n q h = elim (Bool-cases (fifo.is_empty q)) [
    | inr no_one ↦ no_one
    | inl e ↦ absurd (cc ((fifo.is_empty-Holds q (replicate (suc n) env.p_addr) h).0 e))
  ]

  -- If the storage of `p` keeps its contents, the read of the next element of the queue gives the
  -- packet that was queued last, whatever was queued before, and nothing is sent for an empty queue.
  pub dequeue-Released :
      (n : ℕ) (s : State fifo) (mac : List ℕ)
      → IsLive fifo env rtable n s
      → (s' : State fifo) × (sent : List Sent) × (dequeue fifo env rtable s mac ≡ some (s', sent))
        × Released fifo env rtable n s mac s' sent
  unfolding dequeue
  dequeue-Released zero s mac live =
      (s, [], rw ((fifo.is_empty-Holds s.queue [] live.router.pending).1 refl), nothing refl)
  dequeue-Released (suc n) s mac live =
      let (q, done, holds) =
        fifo.deq-Holds env.p_addr s.queue (replicate n env.p_addr) live.router.pending in
      let (r, e) = live.routed (omega arith) in
      let s' : State fifo = record s { queue = q } in
      let less : suc n - 1 ≡ n = omega arith in
      (
        s',
        forward env r mac s.slot ∷ [],
        rw (
          filled n s.queue live.router.pending,
          done,
          read_packet-slot s.slot,
          release-forward s.slot mac r e,
          dequeue,
        ),
        last_copy r s' (omega arith) e refl refl (
            rw less (record {
              router = record {
                table = live.router.table;
                macs = live.router.macs;
                pending = holds;
              };
              routed = λ h. live.routed (omega arith);
            })),
      )

  -- The state after a reply was learnt.
  learn-IsLive :
      (n : ℕ) (s : State fifo) (m : Packet) (table : List ArpEntry)
      → IsLive fifo env rtable n s
      → learn s.arp_table (spa m.payload) (sha m.payload) ≡ some table
      → IsLive fifo env rtable n (record s { arp_table = table })
  learn-IsLive n s m table live e = record {
    router = record {
      table =
          (learn-IsArpTable s.arp_table (spa m.payload) (sha m.payload) live.router.table).0 table
            e;
      macs =
          learn-HasMacs s.arp_table table (spa m.payload) (sha m.payload) live.router.macs
            (length-slice m.payload 22 6) e;
      pending = live.router.pending;
    };
    routed = live.routed;
  }

-- The frame that answers the request `m` from the hardware address `mac`: to the address that the
-- request came from, Ethernet and IPv4, operation 2, the address that was asked for with `mac`, and the
-- asker's addresses.
abbrev pub answer_bytes : List ℕ → Packet → List ℕ
answer_bytes mac m =
    slice m.payload 6 6
    ++ (mac
        ++ (8 ∷ 6 ∷ 0 ∷ 1 ∷ 8 ∷ 0 ∷ 6 ∷ 4 ∷ 0 ∷ 2 ∷ mac
            ++ (bytes32 (load32 m.payload 38)
                ++ (slice m.payload 6 6 ++ bytes32 (load32 m.payload 28)))))

-- What becomes of an ARP packet `m` in state `s`, with `n` pointers in the queue.
module _ (fifo : Fifo ℕ) (env : Env) (rtable : List RouteTable) (n : ℕ) (s : State fifo)
    (m : Packet) where
  pub data ArpOutcome : State fifo → List Sent → Type 0 where
    answered :
        (frame : Sent)
        → tpa m.payload ≡ env.interface_ip m.interface
        → op m.payload ≡ htons arpop_request
        → frame.interface ≡ m.interface
        → frame.bytes ≡ answer_bytes (env.interface_mac m.interface) m
        → ArpOutcome s (frame ∷ [])
    ignored :
        ((tpa m.payload ≡ env.interface_ip m.interface) → op m.payload ≢ htons arpop_request)
        → op m.payload ≢ htons arpop_reply
        → ArpOutcome s []
    learnt :
        (table : List ArpEntry) (s' : State fifo) (sent : List Sent)
        → op m.payload ≡ htons arpop_reply
        → learn s.arp_table (spa m.payload) (sha m.payload) ≡ some table
        → IsLive fifo env rtable n (record s { arp_table = table })
        → Released fifo env rtable n (record s { arp_table = table }) (sha m.payload) s' sent
        → ArpOutcome s' sent

-- `o` is an outcome that the relation allows.
abbrev pub ArpReturns :
    (fifo : Fifo ℕ) (env : Env) (rtable : List RouteTable) (n : ℕ) (s : State fifo)
    → Packet
    → Outcome fifo
    → Type 0
ArpReturns fifo env rtable n s m o =
    (s' : State fifo) × (sent : List Sent) × (o ≡ some (s', sent))
    × ArpOutcome fifo env rtable n s m s' sent

-- A reply finds its sender in the table, or room for it.
abbrev pub HasRoom : List ArpEntry → Packet → Type 0
HasRoom table m =
    op m.payload ≡ htons arpop_reply → learn table (spa m.payload) (sha m.payload) ≢ none

request_or_reply :
    (env : Env) (m : Packet) → op m.payload ≡ htons arpop_reply → is_arp_request env m ≡ false
unfolding is_arp_request
request_or_reply env m e = ground arith

module _ (fifo : Fifo ℕ) (env : Env) (rtable : List RouteTable) (n : ℕ) (s : State fifo)
    (m : Packet) (retains : op m.payload ≡ htons arpop_reply → Retains env)
    (live : IsLive fifo env rtable n s) (arp : htons (ether_type m.payload) ≡ ethertype_arp)
    (room : HasRoom s.arp_table m) where
  reply-ArpOutcome :
      op m.payload ≡ htons arpop_reply
      → ArpReturns fifo env rtable n s m (handle_reply fifo env rtable s m)
  unfolding handle_reply
  reply-ArpOutcome e = elim (Option-cases (learn s.arp_table (spa m.payload) (sha m.payload))) [
    | inl full ↦ absurd (room e full)
    | inr (table, done) ↦
        let live' : IsLive fifo env rtable n (record s { arp_table = table }) =
          learn-IsLive fifo env rtable (retains e) n s m table live done in
        let (s', sent, ok, released) =
          dequeue-Released fifo env rtable (retains e) n (record s { arp_table = table })
            (sha m.payload) live' in
        (s', sent, rw (done, ok, handle_reply), learnt table s' sent e done live' released)
  ]

  arp_type : bytes16 (ether_type m.payload) ≡ 8 ∷ 6 ∷ []
  arp_type = ground arith

  arp_reply-bytes : (arp_reply env m).bytes ≡ answer_bytes (env.interface_mac m.interface) m
  unfolding arp_reply send_arp
  arp_reply-bytes = rw (arp_type, append_assoc) refl

  answered_request :
      is_arp_request env m ≡ true → ArpOutcome fifo env rtable n s m s (arp_reply env m ∷ [])
  unfolding is_arp_request arp_reply send_arp
  answered_request request =
      answered (arp_reply env m) (ground arith) (ground arith) refl arp_reply-bytes

  ignored_packet :
      is_arp_request env m ≡ false
      → op m.payload ≢ htons arpop_reply
      → ArpOutcome fifo env rtable n s m s []
  unfolding is_arp_request
  ignored_packet no_request no_reply = ignored (λ here asks. absurd (ground arith)) no_reply

  parsed : parse_arp m.payload ≡ some 14
  unfolding parse_arp
  parsed = ground arith

  -- If the invariant of the loop holds, and, for an ARP reply, the storage of `p` keeps its contents
  -- and the sender is in the table or finds room there, handle_arp returns on every ARP packet. A request for
  -- the address of the interface that it came by is answered there, by one frame with that address
  -- and the interface's hardware address, to the asker, and the state stays. From a reply, whatever
  -- address it is for, the sender's addresses are learnt, and what it releases is sent. Every other
  -- packet is ignored.
  pub handle_arp-ArpOutcome : ArpReturns fifo env rtable n s m (handle_arp fifo env rtable s m)
  unfolding handle_arp
  handle_arp-ArpOutcome = elim (Bool-cases (op m.payload == htons arpop_reply)) [
    | inl reply ↦
        let e : op m.payload ≡ htons arpop_reply = (==_iff _ _).0 reply in
        let (s', sent, ok, outcome) = reply-ArpOutcome e in
        (s', sent, rw (parsed, reply, ok, handle_arp) (rw (request_or_reply env m e)), outcome)
    | inr other ↦ elim (Bool-cases (is_arp_request env m)) [
      | inl request ↦ (
        s,
        arp_reply env m ∷ [],
        rw (parsed, request, other, handle_arp),
        answered_request request,
      )
      | inr no_request ↦ (
        s,
        [],
        rw (parsed, no_request, other, handle_arp),
        ignored_packet no_request (ground arith),
      )
    ]
  ]
