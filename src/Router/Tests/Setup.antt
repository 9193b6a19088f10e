-- ===== src/Router/Tests/Setup.antt =====
-- The set-up of Tema_1/router.c on the text of a small file, with an insertion sort for qsort.
use communication_protocols.Base.{
  ℕ, zero, suc, ◌+◌, ◌-◌, ◌*◌, ◌≡◌, ◌↔◌, refl, Bool, true, false, some, List, [], ◌∷◌, arith, codes,
  ltb, ◌==◌, if◌then◌else◌, lt_wf, dec_lt,
}
use communication_protocols.Base.Int.{ℤ, pos, negsuc}
use communication_protocols.CString.{
  c_text, is_space, skip_spaces, decimal, decimal_acc, scan_digits, number, scan_int,
}
use communication_protocols.Router.Route.{RouteTable, comparator, null, get_best_route}
use communication_protocols.Router.Route.Search.{matches}
use communication_protocols.Router.Route.OneMask.{OneMask}
use communication_protocols.Router.Setup.{
  lines, word, scan_word, into_25, sscanf, entry, parse_lines, parsing_rtable, set_up,
}
use communication_protocols.Router.Setup.Rows.{Row, Plain, IsRow, table_text, Rows}
use communication_protocols.Router.Setup.Table.{parsing_rtable-Rows}
use communication_protocols.Router.Setup.Lookup.{At, Sorts, set_up_complete}
use communication_protocols.Router.Tests.Data.{lan, wan, rtable, rtable-IsSorted}

-- An address of four numbers, the first one in the lowest byte.
abbrev dotted : (place number : ℕ) → List ℕ → ℕ
dotted place number [] = number * place
dotted place number (c ∷ s) =
    let end : Bool = c == b'.' in
    let rest =
      dotted (if end then place * 256 else place) (if end then 0 else number * 10 + (c - b'0')) s in
    if end then number * place + rest else rest

abbrev pub inet_addr : List ℕ → ℕ
inet_addr s = dotted 1 0 s

abbrev is_after : ℤ → Bool
is_after (pos n) = ltb 0 n
is_after (negsuc n) = false

abbrev put_in : RouteTable → List RouteTable → List RouteTable
put_in r [] = r ∷ []
put_in r (s ∷ t) =
    let rest = put_in r t in if is_after (comparator r s) then s ∷ rest else r ∷ s ∷ t

abbrev pub insertion_sort : List RouteTable → List RouteTable
insertion_sort [] = []
insertion_sort (r ∷ t) = put_in r (insertion_sort t)

abbrev lan_row : Row
lan_row = record {
  prefix = codes "192.168.1.0";
  next_hop = codes "192.168.1.5";
  mask = codes "255.255.255.0";
  interface = 1;
}

abbrev wan_row : Row
wan_row = record {
  prefix = codes "10.0.0.0";
  next_hop = codes "10.0.0.2";
  mask = codes "255.255.255.0";
  interface = 0;
}

abbrev pub rows : List Row
rows = lan_row ∷ wan_row ∷ []

-- The table comes out of the file in the order of its lines, and out of the set-up sorted. A line
-- without a word repeats the entry before it.
set_up_run :
    set_up inet_addr insertion_sort
      (codes "192.168.1.0 192.168.1.5 255.255.255.0 1\n\n10.0.0.0 10.0.0.2 255.255.255.0 0")
    ≡ some (wan ∷ lan ∷ lan ∷ [])
unfolding set_up parsing_rtable parse_lines entry sscanf into_25 scan_int number scan_digits
    scan_word word lines c_text skip_spaces comparator
set_up_run = refl

abbrev all_plain : List ℕ → Bool
all_plain [] = true
all_plain (c ∷ s) = if is_space c then false else (if c == 0 then false else all_plain s)

word-Plain : (s : List ℕ) → all_plain s ≡ true → Plain s
word-Plain [] h = tt
word-Plain (c ∷ s) h = (ground arith, ground arith, word-Plain s (ground arith))

lan_IsRow : IsRow lan_row
unfolding decimal decimal_acc lt_wf dec_lt
lan_IsRow = record {
  prefix = word-Plain lan_row.prefix refl;
  next_hop = word-Plain lan_row.next_hop refl;
  mask = word-Plain lan_row.mask refl;
  prefix_fits = omega arith;
  next_hop_fits = omega arith;
  mask_fits = omega arith;
  interface = omega arith;
  fits = omega arith;
}

wan_IsRow : IsRow wan_row
unfolding decimal decimal_acc lt_wf dec_lt
wan_IsRow = record {
  prefix = word-Plain wan_row.prefix refl;
  next_hop = word-Plain wan_row.next_hop refl;
  mask = word-Plain wan_row.mask refl;
  prefix_fits = omega arith;
  next_hop_fits = omega arith;
  mask_fits = omega arith;
  interface = omega arith;
  fits = omega arith;
}

pub two_rows : Rows rows
two_rows = (lan_IsRow, (wan_IsRow, tt))

abbrev pub file_table : List RouteTable
file_table = lan ∷ wan ∷ []

sorted_table : insertion_sort file_table ≡ rtable
unfolding comparator
sorted_table = refl

one_mask : OneMask file_table 0x00ffffff
one_mask zero r e = ground arith
one_mask (suc zero) r e = ground arith
one_mask (suc (suc i)) r e = absurd (cc e)

swapped : (r s t : RouteTable) → At r (s ∷ t ∷ []) → At r (t ∷ s ∷ [])
swapped r s t (zero, e) = (1, e)
swapped r s t (suc zero, e) = (0, e)
swapped r s t (suc (suc i), e) = absurd (cc e)

pub insertion_sort-Sorts : Sorts insertion_sort file_table
insertion_sort-Sorts = record {
  sorted = rw sorted_table rtable-IsSorted;
  entries = λ r. rw sorted_table (swapped r wan lan, swapped r lan wan);
}

parsing_rtable-Rows_example : parsing_rtable inet_addr (table_text rows) ≡ some (lan ∷ wan ∷ [])
parsing_rtable-Rows_example = parsing_rtable-Rows inet_addr rows two_rows (omega arith)

set_up_complete_example :
    (t : List RouteTable) × (set_up inet_addr insertion_sort (table_text rows) ≡ some t)
    × ((get_best_route t 0x07070707 ≡ null) ↔ ((i : ℕ) → matches file_table 0x07070707 i ≡ false))
set_up_complete_example =
    set_up_complete inet_addr insertion_sort rows 0x00ffffff 0x07070707 two_rows (omega arith)
      one_mask insertion_sort-Sorts
