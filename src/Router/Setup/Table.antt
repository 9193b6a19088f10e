-- ===== src/Router/Setup/Table.antt =====
-- parsing_rtable of Tema_1/router.c reads back the text of a routing table.
use communication_protocols.Base.{
  ℕ, zero, suc, ◌+◌, ◌-◌, ◌%◌, ◌^◌, ◌≤◌, ◌<◌, ◌≡◌, refl, sym, subst, ap, ◌∙◌, true, false, ◌||◌,
  some, List, [], ◌∷◌, ◌++◌, append_assoc, map, arith, ltb, ◌==◌, lt→ltb, min, length,
}
use communication_protocols.CString.{
  c_text, c_text-whole, is_space, skip_spaces, decimal, is_digit, scan_digits, number, scan_int,
}
use communication_protocols.Router.Route.{RouteTable}
use communication_protocols.Router.Setup.{
  lines, word, scan_word, into_25, Fields, sscanf, table_size, entry, parse_lines, parsing_rtable,
}
use communication_protocols.Router.Setup.Rows.{
  Row, Plain, IsText, row_body, table_text, IsRow, Rows, OneLine, OneLine-append, IsText-OneLine,
  Digits, OneLine-NoZero, Digits-OneLine, scan_digits-append, Reads, decimal-Reads,
}

lines-line :
    (room : ℕ) (s f : List ℕ)
    → OneLine s
    → length s ≤ room
    → lines room (s ++ (b'\n' ∷ f)) ≡ (s ++ (b'\n' ∷ [])) ∷ lines 48 f
unfolding lines
lines-line room [] f h fits = refl
lines-line zero (c ∷ s) f h fits = absurd (omega arith)
lines-line (suc room) (c ∷ s) f (h, g, more) fits =
    let room_left : suc room - 1 ≡ room = omega arith in
    let goes_on : ((c == b'\n') || (suc room == 0)) ≡ false = ground arith in
    rw (lines, goes_on, room_left, lines-line room s f more (omega arith))

word-Plain : (s r : List ℕ) → Plain s → word (s ++ (32 ∷ r)) ≡ (s, 32 ∷ r)
unfolding word
word-Plain [] r h = refl
word-Plain (c ∷ s) r (h, g, more) = rw (h, word-Plain s r more)

-- A word at the start, and one behind a space.
scan_first : (s r : List ℕ) → IsText s → scan_word (s ++ (32 ∷ r)) ≡ some (s, 32 ∷ r)
unfolding scan_word skip_spaces
scan_first [] r h = absurd h
scan_first (c ∷ s) r h = rw (scan_word, h.0, word-Plain (c ∷ s) r h)

scan_next : (s r : List ℕ) → IsText s → scan_word (32 ∷ (s ++ (32 ∷ r))) ≡ some (s, 32 ∷ r)
unfolding scan_word skip_spaces
scan_next [] r h = absurd h
scan_next (c ∷ s) r h = rw (scan_word, h.0, word-Plain (c ∷ s) r h)

scan_digits-line : (acc : ℕ) → scan_digits acc (b'\n' ∷ []) ≡ acc
unfolding scan_digits
scan_digits-line acc = refl

number-digit :
    (most c : ℕ) (s : List ℕ)
    → is_digit c ≡ true
    → number most (c ∷ s) ≡ some (min (scan_digits 0 (c ∷ s)) most % 2 ^ 32)
unfolding number
number-digit most c s h = rw h

scan_int-Reads :
    (n : ℕ) (s : List ℕ) → Reads n s → n < 2 ^ 31 → scan_int (32 ∷ (s ++ (b'\n' ∷ []))) ≡ some n
unfolding scan_int skip_spaces
scan_int-Reads n s d fits =
    let first : is_digit d.head ≡ true = (subst Digits d.form d.digits).0 in
    let seen : is_space d.head ≡ false = ground arith in
    let no_minus : (d.head == b'-') ≡ false = ground arith in
    let no_plus : (d.head == b'+') ≡ false = ground arith in
    let value : scan_digits 0 (d.head ∷ (d.tail ++ (b'\n' ∷ []))) ≡ n =
      ap (λ (l : List ℕ). scan_digits 0 (l ++ (b'\n' ∷ []))) (sym d.form)
      ∙ scan_digits-append 0 s (b'\n' ∷ []) d.digits
      ∙ scan_digits-line (scan_digits 0 s)
      ∙ d.value in
    let whole : min n (2 ^ 63 - 1) % 2 ^ 32 ≡ n = omega arith in
    rw (d.form, scan_int, seen, no_minus, no_plus)
      (number-digit (2 ^ 63 - 1) d.head (d.tail ++ (b'\n' ∷ [])) first
        ∙ ap (λ (m : ℕ). some (min m (2 ^ 63 - 1) % 2 ^ 32)) value
        ∙ ap some whole)

-- The locals after a line.
abbrev fields : Row → Fields
fields r = record {
  prefix = some r.prefix;
  next_hop = some r.next_hop;
  mask = some r.mask;
  interface = some r.interface;
}

-- The line of a row, with the newline where the scan finds it.
row_line :
    (r : Row) (end : List ℕ)
    → row_body r ++ end
      ≡ r.prefix ++ (32 ∷ (r.next_hop ++ (32 ∷ (r.mask ++ (32 ∷ (decimal r.interface ++ end))))))
row_line r end =
    append_assoc r.prefix _ end
    ∙ ap (λ (l : List ℕ). r.prefix ++ (32 ∷ l))
        (append_assoc r.next_hop _ end
          ∙ ap (λ (l : List ℕ). r.next_hop ++ (32 ∷ l)) (append_assoc r.mask _ end))

sscanf-row :
    (r : Row) (f : Fields) → IsRow r → sscanf (row_body r ++ (b'\n' ∷ [])) f ≡ some (fields r)
unfolding sscanf into_25
sscanf-row r f v =
    let number : List ℕ = decimal r.interface ++ (b'\n' ∷ []) in
    let mask : List ℕ = r.mask ++ (32 ∷ number) in
    let next_hop : List ℕ = r.next_hop ++ (32 ∷ mask) in
    let digits =
      scan_int-Reads r.interface (decimal r.interface) (decimal-Reads r.interface) v.interface in
    rw (row_line r (b'\n' ∷ []), sscanf)
      (rw
        (into_25, scan_first r.prefix next_hop v.prefix, lt→ltb (length r.prefix) 25 v.prefix_fits)
        (rw
          (
            into_25,
            scan_next r.next_hop mask v.next_hop,
            lt→ltb (length r.next_hop) 25 v.next_hop_fits,
          )
          (rw (
            into_25,
            scan_next r.mask number v.mask,
            lt→ltb (length r.mask) 25 v.mask_fits,
            digits,
          ))))

row_body-OneLine : (r : Row) → IsRow r → OneLine (row_body r)
row_body-OneLine r v = OneLine-append r.prefix _ (IsText-OneLine r.prefix v.prefix) (
  refl,
  refl,
  OneLine-append r.next_hop _ (IsText-OneLine r.next_hop v.next_hop) (
    refl,
    refl,
    OneLine-append r.mask _ (IsText-OneLine r.mask v.mask)
        (refl, refl, Digits-OneLine (decimal r.interface) (decimal-Reads r.interface).digits),
  ),
)

c_text-row : (r : Row) → IsRow r → c_text (row_body r ++ (b'\n' ∷ [])) ≡ row_body r ++ (b'\n' ∷ [])
unfolding c_text
c_text-row r v =
    c_text-whole (row_body r) (b'\n' ∷ []) (OneLine-NoZero (row_body r) (row_body-OneLine r v))

module _ (inet_addr : List ℕ → ℕ) where
  abbrev pub row_entry : Row → RouteTable
  row_entry r = record {
    prefix = inet_addr r.prefix;
    next_hop = inet_addr r.next_hop;
    mask = inet_addr r.mask;
    interface = r.interface;
  }

  parse_lines-Rows :
      (f : Fields) (nr : ℕ) (rs : List Row)
      → Rows rs
      → nr + length rs ≤ table_size
      → parse_lines inet_addr f nr (lines 48 (table_text rs)) ≡ some (map row_entry rs)
  unfolding parse_lines lines entry
  parse_lines-Rows f nr [] v fits = refl
  parse_lines-Rows f nr (r ∷ rs) (v, vs) fits =
      let room : ltb nr table_size ≡ true = lt→ltb nr table_size (omega arith) in
      rw (
        lines-line 48 (row_body r) (table_text rs) (row_body-OneLine r v) v.fits,
        parse_lines,
        c_text-row r v,
        sscanf-row r f v,
        parse_lines-Rows (fields r) (nr + 1) rs vs (omega arith),
        room,
      )

  -- If every line has three words of less than 25 characters and an interface number of an int, fits
  -- into the 50 bytes of a line, and there are at most 100000 lines, parsing_rtable reads the whole
  -- file without a fault and stores one entry for each line, in order: the addresses that inet_addr
  -- gives for the words, and the number.
  pub parsing_rtable-Rows :
      (rs : List Row)
      → Rows rs
      → length rs ≤ table_size
      → parsing_rtable inet_addr (table_text rs) ≡ some (map row_entry rs)
  unfolding parsing_rtable
  parsing_rtable-Rows rs v fits = parse_lines-Rows _ 0 rs v (omega arith)
