-- ===== src/Router/Main/Outcome.antt =====
-- What a round of Tema_1/router.c may do with an IP packet, as README.md and the loop's comments say
-- it, and the invariant of the loop's state.
use communication_protocols.Base.{
  ℕ, ◌+◌, ◌≤◌, ◌<◌, ◌≡◌, ◌≢◌, ◌⊎◌, inl, inr, refl, Bool, true, false, Option, none, some, List, [],
  ◌∷◌, arith, ◌==◌, get_elem?, replicate,
}
use communication_protocols.Router.Bytes.{Payload, slice}
use communication_protocols.Router.Checksum.{ip_checksum}
use communication_protocols.Router.Route.{
  RouteTable, Found, found, null, out_of_bounds, out_of_fuel, masked, get_best_route,
}
use communication_protocols.Router.Route.Search.{Answers, get_best_route-Answers}
use communication_protocols.Router.Arp.{ArpEntry, get_arp_entry}
use communication_protocols.Router.Arp.Table.{IsArpTable, HasMacs}
use communication_protocols.Router.Queue.Interface.{Fifo}
use communication_protocols.Router.Frames.{
  Packet, Sent, icmp_echoreply, icmp_time_exceeded, icmp_dest_unreach,
}
use communication_protocols.Router.Frames.Icmp.{IsIcmpFrame}
use communication_protocols.Router.Main.{Env, State, hop, arp_request, is_echo_request, best_route}
use communication_protocols.Router.Headers.{ttl, saddr, daddr, ether_dhost, ether_shost, ip_header}
use communication_protocols.Router.Main.Hop.{IsHop}

-- An entry of the table whose prefix is the destination under the entry's mask.
abbrev pub IsRoute : List RouteTable → ℕ → RouteTable → Type 0
IsRoute rtable dest r = (k : ℕ) × (get_elem? rtable k ≡ some r) × (masked dest r ≡ r.prefix)

module _ (rtable : List RouteTable) where
  entry-IsRoute :
      (k dest : ℕ) (o : Option RouteTable)
      → get_elem? rtable k ≡ o
      → (elim o as (λ _. Bool) [ none ↦ false | some r ↦ masked dest r == r.prefix ]) ≡ true
      → (r : RouteTable) × (o ≡ some r) × (masked dest r ≡ r.prefix)
  entry-IsRoute k dest none e h = cc
  entry-IsRoute k dest (some r) e h = (r, refl, ground arith)

  abbrev RouteCases : ℕ → Option (Option RouteTable) → Type 0
  RouteCases dest o =
      ((o ≡ some none) × (get_best_route rtable dest ≡ null))
      ⊎ ((r : RouteTable) × (o ≡ some (some r)) × IsRoute rtable dest r)

  answer_cases :
      (dest : ℕ) (f : Found)
      → get_best_route rtable dest ≡ f
      → Answers rtable dest f
      → RouteCases dest (best_route rtable dest)
  unfolding best_route
  answer_cases dest (found k) e a =
      let (r, f, g) = entry-IsRoute k dest (get_elem? rtable k) refl a.1 in
      rw (e, f, best_route) (inr (r, refl, (k, f, g)))
  answer_cases dest null e a = rw (e, best_route) (inl (refl, refl))
  answer_cases dest out_of_bounds e a = elim a [ ]
  answer_cases dest out_of_fuel e a = elim a [ ]

  -- The search ends without a fault, with no route or with an entry that matches.
  pub best_route_cases : (dest : ℕ) → RouteCases dest (best_route rtable dest)
  best_route_cases dest =
      answer_cases dest (get_best_route rtable dest) refl (get_best_route-Answers rtable dest)

-- The state that the loop keeps: an ARP table with six-byte addresses, and `n` pointers in the queue,
-- all to `p`.
module _ (fifo : Fifo ℕ) (env : Env) where
  pub record IsRouter (n : ℕ) (s : State fifo) : Type 0 where
    pub table : IsArpTable s.arp_table
    pub macs : HasMacs s.arp_table
    pub pending : fifo.Holds s.queue (replicate n env.p_addr)

module _ (m : Packet) where
  -- An ICMP message of this type, code 0, back to the sender, by the interface it came from.
  abbrev pub Answered : ℕ → Sent → Type 0
  Answered type f =
      (f.interface ≡ m.interface)
      × IsIcmpFrame (daddr m.payload) (saddr m.payload) type 0 (ether_dhost m.payload)
          (ether_shost m.payload) f.bytes

module _ (env : Env) (m : Packet) where
  -- The tests that a packet passes before its route is looked up.
  pub record Passes : Type 0 where
    pub foreign : is_echo_request env m ≡ false
    pub alive : 1 < ttl m.payload
    pub intact : ip_checksum (env.payload_addr + 14) (ip_header m.payload) ≡ 0

-- What may become of an IP packet `m` in state `s`, with `n` pointers in the queue.
module _ (fifo : Fifo ℕ) (env : Env) (rtable : List RouteTable) (n : ℕ) (s : State fifo)
    (m : Packet) where
  pub data IpOutcome : State fifo → List Sent → Type 0 where
    echoed :
        (f : Sent)
        → is_echo_request env m ≡ true
        → Answered m icmp_echoreply f
        → IpOutcome s (f ∷ [])
    expired :
        (f : Sent)
        → is_echo_request env m ≡ false
        → ttl m.payload ≤ 1
        → Answered m icmp_time_exceeded f
        → IpOutcome s (f ∷ [])
    corrupt :
        is_echo_request env m ≡ false
        → 1 < ttl m.payload
        → ip_checksum (env.payload_addr + 14) (ip_header m.payload) ≢ 0
        → IpOutcome s []
    unreachable :
        (f : Sent)
        → Passes env m
        → get_best_route rtable (daddr m.payload) ≡ null
        → Answered m icmp_dest_unreach f
        → IpOutcome s (f ∷ [])
    forwarded :
        (r : RouteTable) (e : ArpEntry) (q : Payload) (f : Sent)
        → Passes env m
        → IsRoute rtable (daddr m.payload) r
        → get_arp_entry s.arp_table (daddr m.payload) ≡ some e
        → IsHop (env.interface_mac r.interface) e.mac m.payload q
        → f.interface ≡ r.interface
        → f.bytes ≡ slice q 0 m.len
        → IpOutcome s (f ∷ [])
    queued :
        (r : RouteTable) (s' : State fifo)
        → Passes env m
        → best_route rtable (daddr m.payload) ≡ some (some r)
        → IsRoute rtable (daddr m.payload) r
        → get_arp_entry s.arp_table (daddr m.payload) ≡ none
        → s'.arp_table ≡ s.arp_table
        → s'.slot ≡ hop env m
        → IsRouter fifo env (n + 1) s'
        → IpOutcome s' (arp_request env r ∷ [])
