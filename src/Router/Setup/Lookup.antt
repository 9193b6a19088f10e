-- ===== src/Router/Setup/Lookup.antt =====
-- The routing table from the file to the search: parsing_rtable, qsort and get_best_route of
-- Tema_1/router.c.
use communication_protocols.Base.{
  ℕ, ◌≤◌, ◌≡◌, ◌↔◌, false, inl, inr, some, Option-cases, List, map, ◌==◌, length, get_elem?,
}
use communication_protocols.Router.Route.{RouteTable, masked, null, get_best_route}
use communication_protocols.Router.Route.Search.{matches}
use communication_protocols.Router.Route.OneMask.{IsSorted, OneMask, get_best_route_complete}
use communication_protocols.Router.Setup.{table_size, set_up}
use communication_protocols.Router.Setup.Rows.{Row, table_text, Rows}
use communication_protocols.Router.Setup.Table.{row_entry, parsing_rtable-Rows}

-- An entry of a table.
abbrev pub At : RouteTable → List RouteTable → Type 0
At r t = (i : ℕ) × (get_elem? t i ≡ some r)

-- What qsort promises for a table: the same entries, in the order of comparator.
pub record Sorts (qsort : List RouteTable → List RouteTable) (t : List RouteTable) : Type 0 where
  pub sorted : IsSorted (qsort t)
  pub entries : (r : RouteTable) → At r (qsort t) ↔ At r t

abbrev Unmatched : List RouteTable → ℕ → Type 0
Unmatched t dest = (r : RouteTable) → At r t → (masked dest r == r.prefix) ≡ false

matches-Unmatched :
    (t : List RouteTable) (dest : ℕ) → ((i : ℕ) → matches t dest i ≡ false) → Unmatched t dest
matches-Unmatched t dest h r (i, e) = rw (matches, e) at (h i)

Unmatched-matches :
    (t : List RouteTable) (dest : ℕ) → Unmatched t dest → (i : ℕ) → matches t dest i ≡ false
Unmatched-matches t dest h i = elim (Option-cases (get_elem? t i)) [
  | inl e ↦ rw (matches, e)
  | inr (r, e) ↦ rw (matches, e) (h r (i, e))
]

module _ (inet_addr : List ℕ → ℕ) (qsort : List RouteTable → List RouteTable) (rs : List Row) where
  abbrev table : List RouteTable
  table = map (row_entry inet_addr) rs

  -- If every line of the file has three words and an interface number that fit, there are at most
  -- 100000 lines, all their masks are one mask, and qsort gives the same entries in the order of
  -- comparator: the set-up goes through, and on the table that it leaves get_best_route answers NULL
  -- exactly if no line of the file is a route to the destination.
  pub set_up_complete :
      (mask dest : ℕ)
      → Rows rs
      → length rs ≤ table_size
      → OneMask table mask
      → Sorts qsort table
      → (t : List RouteTable) × (set_up inet_addr qsort (table_text rs) ≡ some t)
        × ((get_best_route t dest ≡ null) ↔ ((i : ℕ) → matches table dest i ≡ false))
  unfolding set_up
  set_up_complete mask dest rows fits one sorts =
      let one_sorted : OneMask (qsort table) mask =
        λ i r e. let (j, f) = (sorts.entries r).0 (i, e) in one j r f in
      let answer = get_best_route_complete (qsort table) dest mask sorts.sorted one_sorted in
      (
        qsort table,
        rw (set_up, parsing_rtable-Rows inet_addr rs rows fits),
        (
          (λ e.
              Unmatched-matches table dest λ r at.
                matches-Unmatched (qsort table) dest (answer.0 e) r ((sorts.entries r).1 at)),
          λ h. answer.1 (
              Unmatched-matches (qsort table) dest
                λ r at. matches-Unmatched table dest h r ((sorts.entries r).0 at)),
        ),
      )
