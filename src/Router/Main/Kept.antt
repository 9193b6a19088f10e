-- ===== src/Router/Main/Kept.antt =====
-- What a round of Tema_1/router.c keeps, and by which interfaces its frames leave.
use communication_protocols.Base.{
  ℕ, ◌+◌, ◌-◌, ◌≤◌, ◌<◌, ◌≡◌, sym, ◌∙◌, subst, Option, get_elem?, inl, inr, refl, Bool, true, ◌&&◌,
  some, List, [], ◌∷◌, arith, ◌==◌, if◌then◌else◌, length,
}
use communication_protocols.Router.Bytes.{htons}
use communication_protocols.Router.Route.{RouteTable}
use communication_protocols.Router.Arp.{capacity}
use communication_protocols.Router.Arp.Table.{learn-IsArpTable, length-learn}
use communication_protocols.Router.Queue.Interface.{Fifo}
use communication_protocols.Router.Frames.{
  Packet, Sent, send_arp, send_packet, ethertype_arp, arpop_reply,
}
use communication_protocols.Router.Main.{Env, State, best_route, arp_request, forward}
use communication_protocols.Router.Headers.{ether_type, daddr, op, spa, sha}
use communication_protocols.Router.Main.Outcome.{
  IsRoute, best_route_cases, IpOutcome, echoed, expired, corrupt, unreachable, forwarded, queued,
}
use communication_protocols.Router.Main.Ip.{hop-daddr}
use communication_protocols.Router.Main.Arp.{
  IsLive, Released, nothing, last_copy, ArpOutcome, answered, ignored, learnt, HasRoom,
}

-- A packet that the loop takes for an ARP reply.
abbrev pub is_reply : Packet → Bool
is_reply m = (htons (ether_type m.payload) == ethertype_arp) && (op m.payload == htons arpop_reply)

pub is_reply-true :
    (m : Packet)
    → htons (ether_type m.payload) ≡ ethertype_arp
    → op m.payload ≡ htons arpop_reply
    → is_reply m ≡ true
is_reply-true m e o = ground arith

-- The frames leave by the interfaces below k, and so do the routes.
abbrev pub SentBelow : ℕ → List Sent → Type 0
SentBelow k [] = Unit {0}
SentBelow k (f ∷ fs) = (f.interface < k) × SentBelow k fs

abbrev pub RoutesBelow : ℕ → List RouteTable → Type 0
RoutesBelow k rtable = (i : ℕ) (r : RouteTable) → get_elem? rtable i ≡ some r → r.interface < k

route-below :
    (rtable : List RouteTable) (dest k : ℕ) (r : RouteTable)
    → RoutesBelow k rtable
    → IsRoute rtable dest r
    → r.interface < k
route-below rtable dest k r below (i, e, _) = below i r e

arp_request-interface : (env : Env) (r : RouteTable) → (arp_request env r).interface ≡ r.interface
unfolding arp_request send_arp
arp_request-interface env r = refl

forward-interface :
    (env : Env) (r : RouteTable) (mac : List ℕ) (m : Packet)
    → (forward env r mac m).interface ≡ r.interface
unfolding forward send_packet
forward-interface env r mac m = refl

-- The route that the search gives is one of the table.
best_route-IsRoute :
    (rtable : List RouteTable) (dest : ℕ) (r : RouteTable)
    → best_route rtable dest ≡ some (some r)
    → IsRoute rtable dest r
best_route-IsRoute rtable dest r e = elim (best_route_cases rtable dest) [
  | inl (f, _) ↦ absurd (cc (f, e))
  | inr (q, f, route) ↦
      let same : Option.some (Option.some q) ≡ some (some r) = sym f ∙ e in
      let same' : q ≡ r = cc in subst (λ x. IsRoute rtable dest x) same' route
]

module _ (fifo : Fifo ℕ) (env : Env) (rtable : List RouteTable) where
  -- What a round keeps: the invariant, at most one more ARP entry, and that for a reply, and frames only
  -- by the packet's interface or by one of the table.
  pub record Kept (m : Packet) (s s' : State fifo) (sent : List Sent) : Type 0 where
    pub n' : ℕ
    pub live : IsLive fifo env rtable n' s'
    pub grown : length s'.arp_table ≤ length s.arp_table + (if is_reply m then 1 else 0)
    pub leaves : (k : ℕ) → m.interface < k → RoutesBelow k rtable → SentBelow k sent

  pub ip-Kept :
      {n : ℕ} {s s' : State fifo} {m : Packet} {sent : List Sent}
      → IsLive fifo env rtable n s
      → IpOutcome fifo env rtable n s m s' sent
      → Kept m s s' sent
  ip-Kept {n} live (echoed f e a) = record {
    n' = n;
    live = live;
    grown = omega arith;
    leaves = λ k h below. (rw a.0 h, tt);
  }
  ip-Kept {n} live (expired f e t a) = record {
    n' = n;
    live = live;
    grown = omega arith;
    leaves = λ k h below. (rw a.0 h, tt);
  }
  ip-Kept {n} live (corrupt e t c) = record {
    n' = n;
    live = live;
    grown = omega arith;
    leaves = λ k h below. tt;
  }
  ip-Kept {n} live (unreachable f p b a) = record {
    n' = n;
    live = live;
    grown = omega arith;
    leaves = λ k h below. (rw a.0 h, tt);
  }
  ip-Kept {n} live (forwarded r e q f p i g h b b') = record {
    n' = n;
    live = live;
    grown = omega arith;
    leaves = λ k lt below. (rw b (route-below rtable _ k r below i), tt);
  }
  ip-Kept {n} {m} live (queued r s' p b i g t sl router) = record {
    n' = n + 1;
    live = record { router = router; routed = λ _. (r, rw (sl, hop-daddr env m) b) };
    grown = rw t (omega arith);
    leaves =
        λ k lt below. (rw (arp_request-interface env r) (route-below rtable _ k r below i), tt);
  }

  Released-IsLive :
      {n : ℕ} {s s' : State fifo} {mac : List ℕ} {sent : List Sent}
      → IsLive fifo env rtable n s
      → Released fifo env rtable n s mac s' sent
      → (n' : ℕ) × IsLive fifo env rtable n' s'
        × (s'.arp_table ≡ s.arp_table)
        × ((k : ℕ) → RoutesBelow k rtable → SentBelow k sent)
  Released-IsLive {n} live (nothing e) = (n, live, refl, λ k below. tt)
  Released-IsLive {n} {s} {mac} live (last_copy r s' h b t sl after) = (
    n - 1,
    after,
    t,
    λ k below. (
      rw (forward-interface env r mac s.slot)
          (route-below rtable _ k r below (best_route-IsRoute rtable (daddr s.slot.payload) r b)),
      tt,
    ),
  )

  pub arp-Kept :
      {n : ℕ} {s s' : State fifo} {m : Packet} {sent : List Sent}
      → htons (ether_type m.payload) ≡ ethertype_arp
      → IsLive fifo env rtable n s
      → ArpOutcome fifo env rtable n s m s' sent
      → Kept m s s' sent
  arp-Kept {n} {m} arp live (answered frame here asks by bytes) = record {
    n' = n;
    live = live;
    grown = omega arith;
    leaves = λ k lt below. (rw by lt, tt);
  }
  arp-Kept {n} arp live (ignored r o) = record {
    n' = n;
    live = live;
    grown = omega arith;
    leaves = λ k lt below. tt;
  }
  arp-Kept {s} {m} arp live (learnt table s' sent o l live' r) =
      let (n', after, same, below_k) = Released-IsLive live' r in
      let reply : is_reply m ≡ true = is_reply-true m arp o in
      record {
        n' = n';
        live = after;
        grown = rw (same, reply) (length-learn s.arp_table table (spa m.payload) (sha m.payload) l);
        leaves = λ k lt below. below_k k below;
      }

  -- While the table has a free entry, any reply finds room.
  pub room :
      (n : ℕ) (s : State fifo) (m : Packet)
      → IsLive fifo env rtable n s
      → length s.arp_table < capacity
      → HasRoom s.arp_table m
  room n s m live free e full = omega (
    arith,
    ((learn-IsArpTable s.arp_table (spa m.payload) (sha m.payload) live.router.table).1.0 full).1,
  )
