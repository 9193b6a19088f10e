-- ===== src/Router/Main/Delivery.antt =====
-- A packet of Tema_1/router.c for a neighbour whose hardware address is not known: it is queued, the
-- neighbour is asked, and its answer sends the packet on.
use communication_protocols.Base.{
  ℕ, ◌+◌, ◌^◌, ◌<◌, ◌≡◌, refl, sym, subst, ◌∙◌, ap, none, some, Option, List, [], ◌∷◌, arith,
  length,
}
use communication_protocols.Router.Bytes.{Payload, IsBytes, slice, htons}
use communication_protocols.Router.Route.{RouteTable}
use communication_protocols.Router.Arp.{capacity, get_arp_entry}
use communication_protocols.Router.Queue.Interface.{Fifo}
use communication_protocols.Router.Frames.{Packet, Sent, ethertype_ip}
use communication_protocols.Router.Headers.{ether_type, daddr}
use communication_protocols.Router.Main.{
  Env, State, best_route, arp_request, arp_reply, forward, hop, handle_ip, round,
}
use communication_protocols.Router.Main.Outcome.{
  Passes, IpOutcome, echoed, expired, corrupt, unreachable, forwarded, queued,
}
use communication_protocols.Router.Main.Ip.{handle_ip-IpOutcome, hop-daddr, forward-IsHop}
use communication_protocols.Router.Main.Hop.{IsHop}
use communication_protocols.Router.Main.Arp.{Retains, IsLive}
use communication_protocols.Router.Main.Exchange.{asking, answering, arp_exchange}

round-handle_ip :
    (fifo : Fifo ℕ) (env : Env) (rtable : List RouteTable) (s : State fifo) (m : Packet)
    → ether_type m.payload ≡ htons ethertype_ip
    → round fifo env rtable s m ≡ handle_ip fifo env rtable s m
unfolding round
round-handle_ip fifo env rtable s m e = rw (e, round) refl

module _ (fifo : Fifo ℕ) (env : Env) (rtable : List RouteTable) (n : ℕ) (s : State fifo)
    (m : Packet) (r : RouteTable) (live : IsLive fifo env rtable n s) (passes : Passes env m)
    (best : best_route rtable (daddr m.payload) ≡ some (some r))
    (unknown : get_arp_entry s.arp_table (daddr m.payload) ≡ none) where
  -- What a packet with a route and without an ARP entry leaves.
  pub record Waits (s' : State fifo) (sent : List Sent) : Type 0 where
    pub asks : sent ≡ arp_request env r ∷ []
    pub live' : IsLive fifo env rtable (n + 1) s'
    pub table : s'.arp_table ≡ s.arp_table
    pub slot : s'.slot ≡ hop env m

  same_route : (q : RouteTable) → best_route rtable (daddr m.payload) ≡ some (some q) → q ≡ r
  same_route q e = let both : Option.some (Option.some q) ≡ some (some r) = sym e ∙ best in cc

  IpOutcome-Waits :
      (s' : State fifo) (sent : List Sent) → IpOutcome fifo env rtable n s m s' sent → Waits s' sent
  unfolding best_route
  IpOutcome-Waits s' sent (echoed f e a) = absurd (cc (e, passes.foreign))
  IpOutcome-Waits s' sent (expired f e t a) = absurd (omega (arith, t, passes.alive))
  IpOutcome-Waits s' sent (corrupt e t c) = absurd (c passes.intact)
  IpOutcome-Waits s' sent (unreachable f p e a) = absurd (cc (rw (best_route, e) at best))
  IpOutcome-Waits s' sent (forwarded q e p f pass i known_entry h b b') =
      absurd (cc (known_entry, unknown))
  IpOutcome-Waits s' sent (queued q t pass e i new table slot router) =
      let same : q ≡ r = same_route q e in
      record {
        asks = ap (λ x. arp_request env x ∷ []) same;
        live' = record { router = router; routed = λ _. (r, rw (slot, hop-daddr env m) best) };
        table = table;
        slot = slot;
      }

-- A packet to be forwarded whose destination has no ARP entry, with a route to a next hop that is the
-- address of an interface of a second router. In the round of the packet the router asks for the next
-- hop; the second router answers; and in the round of the answer the packet leaves, by its route's
-- interface, one hop further, from the interface's hardware address to that of the second router. This
-- is so whatever was queued before, if the invariant of the loop holds, the ARP table has room, the
-- storage of `p` keeps its contents, payloads are bytes, addresses have 32 bits and hardware addresses
-- six bytes.
pub delivered :
    (fifo fifo' : Fifo ℕ) (env env' : Env) (rtable rtable' : List RouteTable) (s : State fifo)
    (s' : State fifo') (r : RouteTable) (j n : ℕ) (p q : Payload) (m : Packet)
    → ether_type m.payload ≡ htons ethertype_ip
    → IsBytes m.payload
    → Passes env m
    → best_route rtable (daddr m.payload) ≡ some (some r)
    → get_arp_entry s.arp_table (daddr m.payload) ≡ none
    → env'.interface_ip j ≡ r.next_hop
    → r.next_hop < 2 ^ 32
    → env.interface_ip r.interface < 2 ^ 32
    → ((i : ℕ) → length (env.interface_mac i) ≡ 6)
    → length (env'.interface_mac j) ≡ 6
    → Retains env
    → IsLive fifo env rtable n s
    → length s.arp_table < capacity
    → (t t' : State fifo) × (f : Sent) × (payload : Payload) × (round fifo env rtable s m
        ≡ some (t, arp_request env r ∷ []))
      × (round fifo' env' rtable' s' (asking env r j p)
          ≡ some (s', arp_reply env' (asking env r j p) ∷ []))
      × (round fifo env rtable t (answering env r j p env' q) ≡ some (t', f ∷ []))
      × IsHop (env.interface_mac r.interface) (env'.interface_mac j) m.payload payload
      × (f.interface ≡ r.interface)
      × (f.bytes ≡ slice payload 0 m.len)
delivered fifo fifo' env env' rtable rtable' s s' r j n p q m ip bytes passes best unknown same to
      by six six' retains live room =
    let (t, sent, ok, outcome) = handle_ip-IpOutcome fifo env rtable n s m live.router bytes six in
    let waits : Waits fifo env rtable n s m r live passes best unknown t sent =
      IpOutcome-Waits fifo env rtable n s m r live passes best unknown t sent outcome in
    let (answered, t', sent', ok', stored, freed) =
      arp_exchange fifo fifo' env env' rtable rtable' t s' r j (n + 1) p q same to by
        (six r.interface) six' retains waits.live' (rw waits.table room) in
    let (r', best', frame) = freed (omega arith) in
    let same_r : r' ≡ r = same_route fifo env rtable n s m r live passes best unknown r' (
      subst (λ x. best_route rtable x ≡ some (some r')) (hop-daddr env m)
        (rw waits.slot at best')) in
    let (payload, is_hop, interface, out) =
      forward-IsHop fifo env rtable n s m live.router bytes six r (env'.interface_mac j)
        passes.alive six' in
    (
      t,
      t',
      forward env r (env'.interface_mac j) (hop env m),
      payload,
      round-handle_ip fifo env rtable s m ip ∙ ok ∙ ap (λ (l : List Sent). some (t, l)) waits.asks,
      answered,
      ok'
          ∙ ap (λ (l : List Sent). some (t', l))
              (frame ∙ λ i. forward env (same_r i) (env'.interface_mac j) (waits.slot i) ∷ []),
      is_hop,
      interface,
      out,
    )
