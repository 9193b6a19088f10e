-- ===== src/Router/Route.antt =====
-- The routing table of Tema_1/router.c: comparator, the order that qsort sorts by, and
-- get_best_route, the binary search. A `uint32_t` is a number below 2 ^ 32 (the word as the
-- little-endian host reads it), and `int` indices are integers: `right` may become -1. A read outside
-- the table is a fault.
pub mod Comparator
pub mod Search
pub mod OneMask
use communication_protocols.Base.{
  ℕ, zero, suc, ◌+◌, ◌-◌, ◌/◌, Bool, true, false, Option, none, some, List, [], ◌∷◌, bit_and, ltb,
  leb, ◌==◌, if◌then◌else◌, length, get_elem?,
}
use communication_protocols.Base.Int.{ℤ, pos, negsuc, sub_ℕ}

pub record RouteTable : Type 0 where
  pub prefix : ℕ
  pub next_hop : ℕ
  pub mask : ℕ
  pub interface : ℕ

unfoldable pub comparator : RouteTable → RouteTable → ℤ
comparator p q =
    if p.prefix == q.prefix
    then (if ltb q.mask p.mask then pos 1 else if ltb p.mask q.mask then negsuc 0 else pos 0)
    else if ltb q.prefix p.prefix
    then pos 1
    else negsuc 0

-- How a search ends: with an entry's index, with NULL, by a read outside the table, or out of fuel.
pub data Found : Type 0 where
  found : ℕ → Found
  null : Found
  out_of_bounds : Found
  out_of_fuel : Found

-- rtable[mid].mask & dest_ip
abbrev pub masked : ℕ → RouteTable → ℕ
masked dest r = bit_and r.mask dest

-- What the two tests of a round say of the entry that was read.
pub data Probe : Type 0 where
  hit above below : Probe

pub probe : ℕ → RouteTable → Probe
probe dest r =
    if masked dest r == r.prefix then hit else if ltb r.prefix (masked dest r) then above else below

-- while (left <= right) with `left` a number (it starts at 0 and grows) and `right` an integer.
module _ (rtable : List RouteTable) (dest : ℕ) where
  pub search_loop : ℕ → ℕ → ℤ → Found
  search_loop zero left right = out_of_fuel
  search_loop (suc fuel) left (negsuc _) = null
  search_loop (suc fuel) left (pos right) =
      let up = search_loop fuel ((left + right) / 2 + 1) (pos right) in
      let down = search_loop fuel left (sub_ℕ ((left + right) / 2) 1) in
      if leb left right
      then elim (get_elem? rtable ((left + right) / 2)) [
        | none ↦ out_of_bounds
        | some r ↦ elim (probe dest r) [
          | hit ↦ found ((left + right) / 2)
          | above ↦ up
          | below ↦ down
        ]
      ]
      else null

  -- As `main` calls it: get_best_route(dest, 0, rtable_size - 1).
  unfoldable pub get_best_route : Found
  unfolding search_loop probe
  get_best_route = search_loop (length rtable + 1) 0 (sub_ℕ (length rtable) 1)
