-- ===== src/Router/Main/Ip.antt =====
-- IP packets in a round of Tema_1/router.c: handle_ip returns one of the outcomes.
use communication_protocols.Base.{
  ℕ, zero, suc, ◌+◌, ◌<◌, ◌≡◌, inl, inr, refl, none, some, List, [], ◌∷◌, ◌++◌, arith, leb, leb→le,
  ◌==◌, length, Bool-cases, Option-cases, replicate,
}
use communication_protocols.Router.Bytes.{Payload, IsBytes, slice, htons}
use communication_protocols.Router.Checksum.{ip_checksum}
use communication_protocols.Router.Route.{RouteTable}
use communication_protocols.Router.Arp.{get_arp_entry}
use communication_protocols.Router.Arp.Table.{get_arp_entry-mac}
use communication_protocols.Router.Queue.Interface.{Fifo}
use communication_protocols.Router.Frames.{
  Packet, Sent, send_packet, send_icmp, send_icmp_error, icmp_echoreply, icmp_time_exceeded,
  icmp_dest_unreach,
}
use communication_protocols.Router.Frames.Icmp.{send_icmp-IsIcmpFrame, send_icmp_error-IsIcmpFrame}
use communication_protocols.Router.Main.{
  Env, State, Outcome, hop, forward, arp_request, is_echo_request, echo_reply, icmp_error,
  best_route, enqueue, send_on, handle_ip,
}
use communication_protocols.Router.Headers.{
  ttl, saddr, daddr, ether_dhost, ether_shost, ip_header, readdress, update_header,
}
use communication_protocols.Router.Main.Hop.{IsHop, readdress-IsHop}
use communication_protocols.Router.Main.Outcome.{
  IsRoute, best_route_cases, IsRouter, Answered, Passes, IpOutcome, echoed, expired, corrupt,
  unreachable, forwarded, queued,
}

replicate-append : {A : Type 0} (n : ℕ) (a : A) → replicate n a ++ a ∷ [] ≡ replicate (n + 1) a
replicate-append zero a = refl
replicate-append (suc n) a =
    let e : suc n + 1 ≡ suc (n + 1) = omega arith in rw (e, replicate-append n a)

module _ (env : Env) (m : Packet) where
  pub hop-daddr : daddr (hop env m).payload ≡ daddr m.payload
  unfolding hop update_header
  hop-daddr = refl

  echo_reply-interface : (echo_reply env m).interface ≡ m.interface
  unfolding echo_reply send_icmp
  echo_reply-interface = refl

  icmp_error-interface : (type : ℕ) → (icmp_error env type m).interface ≡ m.interface
  unfolding icmp_error send_icmp_error
  icmp_error-interface type = refl

  echo_reply-Answered : Answered m icmp_echoreply (echo_reply env m)
  unfolding echo_reply
  echo_reply-Answered = (
    echo_reply-interface,
    send_icmp-IsIcmpFrame env.hdr_addr (saddr m.payload) (daddr m.payload) (ether_dhost m.payload)
        (ether_shost m.payload) icmp_echoreply 0 m.interface (htons env.getpid) 0,
  )

  icmp_error-Answered : (type : ℕ) → Answered m type (icmp_error env type m)
  unfolding icmp_error
  icmp_error-Answered type = (
    icmp_error-interface type,
    send_icmp_error-IsIcmpFrame env.hdr_addr (saddr m.payload) (daddr m.payload)
        (ether_dhost m.payload) (ether_shost m.payload) type 0 m.interface,
  )

-- `o` is an outcome that the relation allows.
abbrev pub Returns :
    (fifo : Fifo ℕ) (env : Env) (rtable : List RouteTable) (n : ℕ) (s : State fifo)
    → Packet
    → Outcome fifo
    → Type 0
Returns fifo env rtable n s m o =
    (s' : State fifo) × (sent : List Sent) × (o ≡ some (s', sent))
    × IpOutcome fifo env rtable n s m s' sent

module _ (fifo : Fifo ℕ) (env : Env) (rtable : List RouteTable) (n : ℕ) (s : State fifo)
    (m : Packet) (router : IsRouter fifo env n s) (bytes : IsBytes m.payload)
    (six : (i : ℕ) → length (env.interface_mac i) ≡ 6) where
  pub forward-IsHop :
      (r : RouteTable) (mac : List ℕ)
      → 1 < ttl m.payload
      → length mac ≡ 6
      → (q : Payload) × IsHop (env.interface_mac r.interface) mac m.payload q
        × ((forward env r mac (hop env m)).interface ≡ r.interface)
        × ((forward env r mac (hop env m)).bytes ≡ slice q 0 m.len)
  unfolding forward hop send_packet
  forward-IsHop r mac alive long = (
    readdress (env.interface_mac r.interface) mac (update_header (env.payload_addr + 14) m.payload),
    readdress-IsHop (env.payload_addr + 14) (env.interface_mac r.interface) mac m.payload
        (six r.interface) long bytes (omega arith),
    refl,
    refl,
  )

  send_on-IpOutcome :
      (r : RouteTable)
      → Passes env m
      → best_route rtable (daddr m.payload) ≡ some (some r)
      → IsRoute rtable (daddr m.payload) r
      → Returns fifo env rtable n s m (send_on fifo env rtable s r (hop env m))
  unfolding send_on enqueue
  send_on-IpOutcome r pass best route =
      elim (Option-cases (get_arp_entry s.arp_table (daddr m.payload))) [
        | inr (e, known) ↦
            let (q, is_hop, by, bs) =
              forward-IsHop r e.mac pass.alive
                (get_arp_entry-mac s.arp_table (daddr m.payload) e router.macs known) in
            (
              s,
              forward env r e.mac (hop env m) ∷ [],
              rw (hop-daddr env m, known, send_on),
              forwarded r e q (forward env r e.mac (hop env m)) pass route known is_hop by bs,
            )
        | inl new ↦
            let (q, done, holds) =
              fifo.enq-Holds env.p_addr s.queue (replicate n env.p_addr) router.pending in
            let s' : State fifo = record s { queue = q; slot = hop env m } in
            (
              s',
              arp_request env r ∷ [],
              rw (hop-daddr env m, new, done, send_on, enqueue),
              queued r s' pass best route new refl refl (record {
                table = router.table;
                macs = router.macs;
                pending = rw replicate-append at holds;
              }),
            )
      ]

  routed :
      (pass : Passes env m)
      → Returns fifo env rtable n s m (elim (best_route rtable (daddr m.payload)) [
        | none ↦ none
        | some none ↦ some (s, icmp_error env icmp_dest_unreach m ∷ [])
        | some (some route) ↦ send_on fifo env rtable s route (hop env m)
      ])
  routed pass = elim (best_route_cases rtable (daddr m.payload)) [
    | inl (e, miss) ↦ rw e (
      s,
      icmp_error env icmp_dest_unreach m ∷ [],
      refl,
      unreachable (icmp_error env icmp_dest_unreach m) pass miss
          (icmp_error-Answered env m icmp_dest_unreach),
    )
    | inr (r, e, route) ↦ rw e (send_on-IpOutcome r pass e route)
  ]

  pub handle_ip-IpOutcome : Returns fifo env rtable n s m (handle_ip fifo env rtable s m)
  unfolding handle_ip
  handle_ip-IpOutcome = elim (Bool-cases (is_echo_request env m)) [
    | inl echo ↦ (
      s,
      echo_reply env m ∷ [],
      rw (echo, handle_ip),
      echoed (echo_reply env m) echo (echo_reply-Answered env m),
    )
    | inr foreign ↦ elim (Bool-cases (leb (ttl m.payload) 1)) [
      | inl old ↦ (
        s,
        icmp_error env icmp_time_exceeded m ∷ [],
        rw (foreign, old, handle_ip),
        expired (icmp_error env icmp_time_exceeded m) foreign (leb→le _ _ old)
            (icmp_error-Answered env m icmp_time_exceeded),
      )
      | inr alive ↦
          elim (Bool-cases (ip_checksum (env.payload_addr + 14) (ip_header m.payload) == 0)) [
            | inl intact ↦
                rw (foreign, alive, intact, handle_ip)
                  (routed
                    (record { foreign = foreign; alive = ground arith; intact = ground arith }))
            | inr wrong ↦ (
              s,
              [],
              rw (foreign, alive, wrong, handle_ip),
              corrupt foreign (ground arith) (ground arith),
            )
          ]
    ]
  ]
