-- ===== src/Router/Route/OneMask.antt =====
-- get_best_route of Tema_1/router.c misses no match where all entries of the sorted table have one
-- mask. With several masks the table's order does not support the search: the entry that a round
-- probes first is the answer wherever it matches.
use communication_protocols.Base.{
  ℕ, zero, suc, ◌≤◌, ◌<◌, ◌≡◌, ◌≢◌, refl, sym, ap, ◌∙◌, ◌↔◌, inl, inr, true, false, Option, none,
  some, List, [], ◌∷◌, arith, bit_and, Bool-cases, Option-cases, length, get_elem?,
}
use communication_protocols.Router.Route.{
  RouteTable, Found, found, null, out_of_bounds, out_of_fuel, masked, Probe, above, below, probe,
  get_best_route,
}
use communication_protocols.Router.Route.Comparator.{NotAfter, NotAfter-prefix_le}
use communication_protocols.Router.Route.Search.{
  matches, probe_at, Searchable, best-Explains, Answers, get_best_route-Answers,
}

-- The table in the order that qsort gives it, and one mask in all its entries.
pub record IsSorted (rtable : List RouteTable) : Type 0 where
  pub in_order :
      (i j : ℕ) (r s : RouteTable)
      → i ≤ j
      → get_elem? rtable i ≡ some r
      → get_elem? rtable j ≡ some s
      → NotAfter r s

abbrev pub OneMask : List RouteTable → ℕ → Type 0
OneMask rtable mask = (i : ℕ) (r : RouteTable) → get_elem? rtable i ≡ some r → r.mask ≡ mask

probe_at-some :
    (rtable : List RouteTable) (dest i : ℕ) (p : Probe)
    → probe_at rtable dest i ≡ some p
    → (r : RouteTable) × (get_elem? rtable i ≡ some r) × (probe dest r ≡ p)
probe_at-some rtable dest i p e = go (get_elem? rtable i) e
  where
    go :
        (o : Option RouteTable)
        → (elim o as (λ _. Option Probe) [ none ↦ none | some r ↦ some (probe dest r) ]) ≡ some p
        → (r : RouteTable) × (o ≡ some r) × (probe dest r ≡ p)
    go none f = cc
    go (some r) f = (r, refl, cc)

unmatched :
    (rtable : List RouteTable) (dest i : ℕ)
    → ((r : RouteTable) → get_elem? rtable i ≡ some r → masked dest r ≢ r.prefix)
    → matches rtable dest i ≡ false
unmatched rtable dest i h = elim (Option-cases (get_elem? rtable i)) [
  | inl f ↦ rw (f, matches)
  | inr (r, f) ↦ rw (f, matches) (let n : masked dest r ≢ r.prefix = h r f in ground arith)
]

matches-lt :
    (rtable : List RouteTable) (dest i : ℕ) → matches rtable dest i ≡ true → i < length rtable
matches-lt [] dest i h = cc
matches-lt (r ∷ rs) dest zero h = omega arith
matches-lt (r ∷ rs) dest (suc i) h = omega (arith, matches-lt rs dest i h)

none_found :
    (rtable : List RouteTable) (dest : ℕ) (f : Found)
    → Answers rtable dest f
    → ((i : ℕ) → matches rtable dest i ≡ false)
    → f ≡ null
none_found rtable dest (found k) a h = let e : matches rtable dest k ≡ false = h k in cc (a.1, e)
none_found rtable dest null a h = refl
none_found rtable dest out_of_bounds a h = elim a [ ]
none_found rtable dest out_of_fuel a h = elim a [ ]

probe_order :
    (dest : ℕ) (r : RouteTable)
    → (probe dest r ≡ above → r.prefix < masked dest r)
      × (probe dest r ≡ below → masked dest r < r.prefix)
unfolding probe
probe_order dest r = ground arith

module _ (rtable : List RouteTable) (dest mask : ℕ) (sorted : IsSorted rtable)
    (one : OneMask rtable mask) where
  left_of-above :
      (i mid : ℕ) → i ≤ mid → probe_at rtable dest mid ≡ some above → matches rtable dest i ≡ false
  left_of-above i mid h e =
      let (s, f, g) = probe_at-some rtable dest mid above e in
      unmatched rtable dest i λ r k. omega (
        arith,
        NotAfter-prefix_le r s (sorted.in_order i mid r s h k f),
        (probe_order dest s).0 g,
        ap (λ m. bit_and m dest) (one i r k ∙ sym (one mid s f)),
      )

  right_of-below :
      (i mid : ℕ) → mid ≤ i → probe_at rtable dest mid ≡ some below → matches rtable dest i ≡ false
  right_of-below i mid h e =
      let (s, f, g) = probe_at-some rtable dest mid below e in
      unmatched rtable dest i λ r k. omega (
        arith,
        NotAfter-prefix_le s r (sorted.in_order mid i s r h f k),
        (probe_order dest s).1 g,
        ap (λ m. bit_and m dest) (one i r k ∙ sym (one mid s f)),
      )

  one_mask-Searchable : Searchable rtable dest
  one_mask-Searchable = record { left_of = left_of-above; right_of = right_of-below }

  -- On a table in the order of comparator whose entries all have one mask, get_best_route answers
  -- NULL exactly if no entry is a route to the destination.
  pub get_best_route_complete :
      (get_best_route rtable dest ≡ null) ↔ ((i : ℕ) → matches rtable dest i ≡ false)
  get_best_route_complete = (
    (λ e i. elim (Bool-cases (matches rtable dest i)) [
      | inr absent ↦ absent
      | inl present ↦
          (rw e at (best-Explains rtable dest i)) one_mask-Searchable (omega arith)
            (matches-lt rtable dest i present)
    ]),
    λ h. none_found rtable dest (get_best_route rtable dest) (get_best_route-Answers rtable dest) h,
  )
