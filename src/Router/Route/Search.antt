-- ===== src/Router/Route/Search.antt =====
-- get_best_route of Tema_1/router.c: it returns on every table, never reads outside it, and what it
-- finds matches; on a table with one mask it misses no match.
use communication_protocols.Base.{
  ℕ, zero, suc, ◌+◌, ◌/◌, ◌≤◌, ◌<◌, ◌≡◌, refl, Bool, true, false, Option, none, some, List, [], ◌∷◌,
  arith, leb, ◌==◌, length, get_elem?, Bool-cases, leb→le, inl, inr, dec_le,
}
use communication_protocols.Base.Int.{ℤ, pos, negsuc, sub_ℕ}
use communication_protocols.Router.Route.{
  RouteTable, Found, found, null, out_of_bounds, out_of_fuel, masked, Probe, hit, above, below,
  probe, search_loop, get_best_route,
}

-- The entry at `i` exists and is a route to `dest`.
abbrev pub matches : List RouteTable → ℕ → ℕ → Bool
matches rtable dest i = elim (get_elem? rtable i) [
  | none ↦ false
  | some r ↦ masked dest r == r.prefix
]

abbrev pub probe_at : List RouteTable → ℕ → ℕ → Option Probe
probe_at rtable dest i = elim (get_elem? rtable i) [ none ↦ none | some r ↦ some (probe dest r) ]

-- right + 1
abbrev pub end_of : ℤ → ℕ
end_of (pos n) = suc n
end_of (negsuc n) = 0

pub get_elem?-some :
    {A : Type 0} (xs : List A) (i : ℕ) → i < length xs → (x : A) × (get_elem? xs i ≡ some x)
get_elem?-some [] i h = absurd (omega arith)
get_elem?-some (x ∷ xs) zero h = (x, refl)
get_elem?-some (x ∷ xs) (suc i) h = get_elem?-some xs i (omega arith)

-- What makes the halving right: left of an entry that is too small, and right of one that is too
-- large, nothing matches.
pub record Searchable (rtable : List RouteTable) (dest : ℕ) : Type 0 where
  pub left_of :
      (i mid : ℕ) → i ≤ mid → probe_at rtable dest mid ≡ some above → matches rtable dest i ≡ false
  pub right_of :
      (i mid : ℕ) → mid ≤ i → probe_at rtable dest mid ≡ some below → matches rtable dest i ≡ false

module _ (rtable : List RouteTable) (dest : ℕ) where
  abbrev pub Explains : (left end i : ℕ) → Found → Type 0
  Explains left end i (found k) = (k < end) × (matches rtable dest k ≡ true)
  Explains left end i null =
      Searchable rtable dest → left ≤ i → i < end → matches rtable dest i ≡ false
  Explains left end i out_of_bounds = ⊥
  Explains left end i out_of_fuel = ⊥

  Explains-above :
      (left mid end i : ℕ) (res : Found)
      → probe_at rtable dest mid ≡ some above
      → Explains (mid + 1) end i res
      → Explains left end i res
  Explains-above left mid end i (found k) e h = h
  Explains-above left mid end i null e h =
      λ s l b. elim (dec_le i mid) [ yes p ↦ s.left_of i mid p e | no p ↦ h s (omega arith) b ]
  Explains-above left mid end i out_of_bounds e h = h
  Explains-above left mid end i out_of_fuel e h = h

  Explains-below :
      (left mid end i : ℕ) (res : Found)
      → mid ≤ end
      → probe_at rtable dest mid ≡ some below
      → Explains left mid i res
      → Explains left end i res
  Explains-below left mid end i (found k) m e h = (omega arith, h.1)
  Explains-below left mid end i null m e h =
      λ s l b. elim (dec_le mid i) [ yes p ↦ s.right_of i mid p e | no p ↦ h s l (omega arith) ]
  Explains-below left mid end i out_of_bounds m e h = h
  Explains-below left mid end i out_of_fuel m e h = h

  probe-hit : (r : RouteTable) → probe dest r ≡ hit → (masked dest r == r.prefix) ≡ true
  unfolding probe
  probe-hit r h = ground arith

  turn-Explains :
      (left mid end i : ℕ) (r : RouteTable) (up down : Found)
      → get_elem? rtable mid ≡ some r
      → mid < end
      → Explains (mid + 1) end i up
      → Explains left mid i down
      → (p : Probe) → probe dest r ≡ p
      → Explains left end i (elim p [ hit ↦ found mid | above ↦ up | below ↦ down ])
  turn-Explains left mid end i r up down e m u d hit f = (m, rw (e, matches) (probe-hit r f))
  turn-Explains left mid end i r up down e m u d above f =
      Explains-above left mid end i up (rw (e, probe_at, f)) u
  turn-Explains left mid end i r up down e m u d below f =
      Explains-below left mid end i down (omega arith) (rw (e, probe_at, f)) d

  end_of-sub_ℕ : (mid : ℕ) → end_of (sub_ℕ mid 1) ≡ mid
  end_of-sub_ℕ mid = ground arith

  pub search_loop-Explains :
      (i fuel left : ℕ) (right : ℤ)
      → end_of right ≤ length rtable
      → end_of right < fuel + left
      → 0 < fuel
      → Explains left (end_of right) i (search_loop rtable dest fuel left right)
  unfolding search_loop
  search_loop-Explains i zero left right fit enough more = absurd (omega arith)
  search_loop-Explains i (suc fuel) left (negsuc n) fit enough more = λ s l h. absurd (omega arith)
  search_loop-Explains i (suc fuel) left (pos right) fit enough more =
      let mid : ℕ = (left + right) / 2 in
      elim (Bool-cases (leb left right)) [
        | inr over ↦ rw over (λ s l h. absurd (ground arith))
        | inl ok ↦
            let le : left ≤ right = leb→le left right ok in
            let (r, e) = get_elem?-some rtable mid (omega arith) in
            rw (ok, e)
              (turn-Explains left mid (suc right) i r
                (search_loop rtable dest fuel (mid + 1) (pos right))
                (search_loop rtable dest fuel left (sub_ℕ mid 1)) e (omega arith)
                (search_loop-Explains i fuel (mid + 1) (pos right) fit (omega arith) (omega arith))
                (rw (end_of-sub_ℕ mid) at (
                  search_loop-Explains i fuel left (sub_ℕ mid 1)
                    (rw (end_of-sub_ℕ mid) (omega arith)) (rw (end_of-sub_ℕ mid) (omega arith))
                    (omega arith)))
                (probe dest r) refl)
      ]

  -- The search from the whole table, in the same words.
  pub best-Explains : (i : ℕ) → Explains 0 (length rtable) i (get_best_route rtable dest)
  unfolding get_best_route
  best-Explains i = rw (end_of-sub_ℕ (length rtable)) at (
      search_loop-Explains i (length rtable + 1) 0 (sub_ℕ (length rtable) 1)
        (rw (end_of-sub_ℕ (length rtable)) (omega arith))
        (rw (end_of-sub_ℕ (length rtable)) (omega arith)) (omega arith))

-- The entries that the search may answer with.
abbrev pub Answers : List RouteTable → ℕ → Found → Type 0
Answers rtable dest (found k) = (k < length rtable) × (matches rtable dest k ≡ true)
Answers rtable dest null = Unit {0}
Answers rtable dest out_of_bounds = ⊥
Answers rtable dest out_of_fuel = ⊥

-- On any table, sorted or not, get_best_route ends without a read outside the table, with NULL or
-- with the index of an entry whose prefix is the destination under the entry's mask.
pub get_best_route-Answers :
    (rtable : List RouteTable) (dest : ℕ) → Answers rtable dest (get_best_route rtable dest)
get_best_route-Answers rtable dest =
    (elim (get_best_route rtable dest)
        as (λ f. Explains rtable dest 0 (length rtable) 0 f → Answers rtable dest f) [
          | found k ↦ λ h. h
          | null ↦ λ h. tt
          | out_of_bounds ↦ λ h. h
          | out_of_fuel ↦ λ h. h
        ])
      (best-Explains rtable dest 0)
