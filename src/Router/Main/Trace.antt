-- ===== src/Router/Main/Trace.antt =====
-- The main loop of Tema_1/router.c over any sequence of packets: the invariant, and no undefined
-- behaviour while the ARP table has room.
use communication_protocols.Base.{
  ℕ, ◌+◌, ◌≤◌, ◌<◌, ◌≡◌, inl, inr, refl, true, some, List, [], ◌∷◌, ◌++◌, arith, ◌==◌,
  if◌then◌else◌, length, Bool-cases, ==_iff, ap,
}
use communication_protocols.Router.Bytes.{IsBytes, htons}
use communication_protocols.Router.Route.{RouteTable}
use communication_protocols.Router.Arp.{capacity}
use communication_protocols.Router.Queue.Interface.{Fifo}
use communication_protocols.Router.Frames.{Packet, Sent, ethertype_ip, ethertype_arp}
use communication_protocols.Router.Main.{Env, State, round, run}
use communication_protocols.Router.Headers.{ether_type}
use communication_protocols.Router.Main.Ip.{handle_ip-IpOutcome}
use communication_protocols.Router.Main.Arp.{Retains, IsLive, HasRoom, handle_arp-ArpOutcome}
use communication_protocols.Router.Main.Kept.{
  is_reply, is_reply-true, Kept, ip-Kept, arp-Kept, room,
}

-- How many packets the loop takes for ARP replies.
abbrev pub replies : List Packet → ℕ
replies [] = 0
replies (m ∷ ms) = (if is_reply m then 1 else 0) + replies ms

abbrev pub AllPackets : List Packet → Type 0
AllPackets [] = Unit {0}
AllPackets (m ∷ ms) = IsBytes m.payload × AllPackets ms

module _ (fifo : Fifo ℕ) (env : Env) (rtable : List RouteTable) where
  run-cons :
      (s s' s'' : State fifo) (m : Packet) (ms : List Packet) (sent more : List Sent)
      → round fifo env rtable s m ≡ some (s', sent)
      → run fifo env rtable s' ms ≡ some (s'', more)
      → run fifo env rtable s (m ∷ ms) ≡ some (s'', sent ++ more)
  unfolding run
  run-cons s s' s'' m ms sent more e f = rw (e, f, run)

module _ (fifo : Fifo ℕ) (env : Env) (rtable : List RouteTable)
    (six : (i : ℕ) → length (env.interface_mac i) ≡ 6) where
  room_for_reply :
      (s : State fifo) (m : Packet) (ms : List Packet)
      → is_reply m ≡ true
      → length s.arp_table + replies (m ∷ ms) ≤ capacity
      → length s.arp_table < capacity
  room_for_reply s m ms reply few =
      let less : length s.arp_table + (1 + replies ms) ≤ capacity = ground arith in omega arith

  -- A round returns and keeps the invariant, for any packet; a reply needs room, and the storage of `p`
  -- must keep its contents for it.
  pub round-Kept :
      (n : ℕ) (s : State fifo) (m : Packet)
      → IsLive fifo env rtable n s
      → IsBytes m.payload
      → (is_reply m ≡ true → Retains env × (length s.arp_table < capacity))
      → (s' : State fifo) × (sent : List Sent) × (round fifo env rtable s m ≡ some (s', sent))
        × Kept fifo env rtable m s s' sent
  unfolding round
  round-Kept n s m live bytes free =
      elim (Bool-cases (ether_type m.payload == htons ethertype_ip)) [
        | inl ip ↦
            let (s', sent, ok, outcome) =
              handle_ip-IpOutcome fifo env rtable n s m live.router bytes six in
            (s', sent, rw (ip, round) ok, ip-Kept fifo env rtable live outcome)
        | inr not_ip ↦ elim (Bool-cases (ether_type m.payload == htons ethertype_arp)) [
          | inr other ↦ (
            s,
            [],
            rw (not_ip, other, round),
            record { n' = n; live = live; grown = omega arith; leaves = λ k lt below. tt },
          )
          | inl arp ↦
              let e : htons (ether_type m.payload) ≡ ethertype_arp =
                ap htons ((==_iff _ _).0 arp) in
              let fits : HasRoom s.arp_table m =
                (λ o full. room fifo env rtable n s m live (free (is_reply-true m e o)).1 o full) in
              let (s', sent, ok, outcome) =
                handle_arp-ArpOutcome fifo env rtable n s m (λ o. (free (is_reply-true m e o)).0)
                  live e fits in
              (s', sent, rw (not_ip, arp, round) ok, arp-Kept fifo env rtable e live outcome)
        ]
      ]

  -- If hardware addresses have six bytes, the loop runs over any packets of bytes without a fault of
  -- the model, and keeps its invariant, as long as the ARP table's entries and the ARP replies among
  -- the packets are together not more than ten, and, if there is a reply, the storage of `p` keeps its
  -- contents.
  pub run-IsLive :
      (ms : List Packet) (n : ℕ) (s : State fifo)
      → (0 < replies ms → Retains env)
      → IsLive fifo env rtable n s
      → AllPackets ms
      → length s.arp_table + replies ms ≤ capacity
      → (s' : State fifo) × (sent : List Sent) × (run fifo env rtable s ms ≡ some (s', sent))
        × ((n' : ℕ) × IsLive fifo env rtable n' s')
  unfolding run
  run-IsLive [] n s retains live bytes few = (s, [], refl, (n, live))
  run-IsLive (m ∷ ms) n s retains live bytes few =
      let (s', sent, ok, kept) =
        round-Kept n s m live bytes.0
          (λ reply. (retains (ground arith), room_for_reply s m ms reply few)) in
      let (s'', more, ok', live') =
        run-IsLive ms kept.n' s' (λ h. retains (omega arith)) kept.live bytes.1
          (omega (arith, kept.grown)) in
      (s'', sent ++ more, run-cons fifo env rtable s s' s'' m ms sent more ok ok', live')
