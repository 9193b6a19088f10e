-- ===== src/Router/Setup.antt =====
-- The set-up of Tema_1/router.c before its loop: parsing_rtable on the text of the file, and qsort by
-- comparator. inet_addr and qsort are parameters. A local that is read before it was written, a text
-- that is longer than its buffer, and an entry behind the allocated table are faults, `none`.
pub mod Rows
pub mod Table
pub mod Lookup
use communication_protocols.Base.{
  ℕ, zero, suc, ◌+◌, ◌-◌, ◌*◌, ◌%◌, ◌^◌, Bool, true, false, ◌&&◌, ◌||◌, Option, none, some, List,
  [], ◌∷◌, ltb, leb, ◌==◌, if◌then◌else◌, min, length,
}
use communication_protocols.CString.{
  c_text, is_space, skip_spaces, is_digit, scan_digits, number, scan_int,
}
use communication_protocols.Router.Route.{RouteTable}

-- What fgets(line, 50, f) gives, call by call, with `room` characters for the first one behind the next.
unfoldable pub lines : (room : ℕ) → List ℕ → List (List ℕ)
lines room [] = []
lines room (c ∷ f) =
    let last : Bool = (c == b'\n') || (room == 0) in
    let rest = lines (if last then 48 else room - 1) f in
    if last then (c ∷ []) ∷ rest else (elim rest [ [] ↦ (c ∷ []) ∷ [] | l ∷ ls ↦ (c ∷ l) ∷ ls ])

-- The characters before white space, and the rest.
unfoldable pub word : List ℕ → List ℕ × List ℕ
word [] = ([], [])
word (c ∷ s) = let rest = word s in if is_space c then ([], c ∷ s) else (c ∷ rest.0, rest.1)

-- %s, and what is left; `none` if the text ends before it.
unfoldable pub scan_word : List ℕ → Option (List ℕ × List ℕ)
unfolding skip_spaces word
scan_word s = elim (skip_spaces s) [ [] ↦ none | c ∷ r ↦ some (word (c ∷ r)) ]

-- The locals of parsing_rtable; `none` is what was not written yet.
pub record Fields : Type 0 where
  pub prefix : Option (List ℕ)
  pub next_hop : Option (List ℕ)
  pub mask : Option (List ℕ)
  pub interface : Option ℕ

-- A conversion %s into 25 bytes: `stop` if the text ends before it.
unfoldable pub into_25 :
    List ℕ → (stop : Fields) → (List ℕ → List ℕ → Option Fields) → Option Fields
unfolding scan_word
into_25 s stop next = elim (scan_word s) [
  | none ↦ some stop
  | some (w, r) ↦ if ltb (length w) 25 then next w r else none
]

-- sscanf(line, "%s %s %s %d", prefix, next_hop, mask, &interface): a conversion that fails is the last
-- one, and leaves its local and the others as they are.
unfoldable pub sscanf : List ℕ → Fields → Option Fields
unfolding scan_word scan_int into_25
sscanf line f = into_25 line f λ prefix r.
    into_25 r (record f { prefix = some prefix })
      λ next_hop r.
        into_25 r (record f { prefix = some prefix; next_hop = some next_hop })
          λ mask r. some (record {
            prefix = some prefix;
            next_hop = some next_hop;
            mask = some mask;
            interface = elim (scan_int r) [ none ↦ f.interface | some n ↦ some n ];
          })

-- sizeof of the table in entries
abbrev pub table_size : ℕ
table_size = 100000

module _ (inet_addr : List ℕ → ℕ) where
  unfoldable pub entry : Fields → Option RouteTable
  entry f = elim f.prefix [
    | none ↦ none
    | some prefix ↦ elim f.next_hop [
      | none ↦ none
      | some next_hop ↦ elim f.mask [
        | none ↦ none
        | some mask ↦ elim f.interface [
          | none ↦ none
          | some interface ↦ some (record {
            prefix = inet_addr prefix;
            next_hop = inet_addr next_hop;
            mask = inet_addr mask;
            interface = interface;
          })
        ]
      ]
    ]
  ]

  -- while(fgets(line, 50, f) != NULL), at rtable[nr]
  unfoldable pub parse_lines : Fields → (nr : ℕ) → List (List ℕ) → Option (List RouteTable)
  unfolding sscanf c_text entry
  parse_lines f nr [] = some []
  parse_lines f nr (line ∷ ls) = elim (sscanf (c_text line) f) [
    | none ↦ none
    | some f' ↦ elim (entry f') [
      | none ↦ none
      | some r ↦
          let rest = parse_lines f' (nr + 1) ls in
          if ltb nr table_size then (elim rest [ none ↦ none | some t ↦ some (r ∷ t) ]) else none
    ]
  ]

  -- The entries that it writes, and their number, on a file with this text.
  unfoldable pub parsing_rtable : List ℕ → Option (List RouteTable)
  unfolding parse_lines lines
  parsing_rtable file =
      parse_lines (record { prefix = none; next_hop = none; mask = none; interface = none }) 0
        (lines 48 file)

  -- The table as the loop of main finds it.
  unfoldable pub set_up :
      (qsort : List RouteTable → List RouteTable) → List ℕ → Option (List RouteTable)
  unfolding parsing_rtable
  set_up qsort file = elim (parsing_rtable file) [ none ↦ none | some t ↦ some (qsort t) ]
