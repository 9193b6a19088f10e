-- ===== src/Router/Hex/RoundTrip.antt =====
-- hwaddr_aton of Tema_1/skel.c reads back what an address prints, and stores only bytes.
use communication_protocols.Base.{
  ℕ, zero, suc, ◌+◌, ◌*◌, ◌/◌, ◌%◌, ◌≤◌, ◌<◌, ◌≡◌, refl, inl, inr, Bool, true, false, ◌&&◌, some,
  List, [], ◌∷◌, ◌++◌, arith, ltb, ◌==◌, ==_iff, Option-cases, if◌then◌else◌, length, passes_until,
  passes_until-at,
}
use communication_protocols.Router.Bytes.{AllBytes}
use communication_protocols.Router.Hex.{
  char_at, next, hex2num, join_digits, hwaddr_loop, hwaddr_aton, digit, print_mac,
}

hex2num-digit : (n : ℕ) → n < 16 → hex2num (digit n) ≡ some n
unfolding hex2num digit
hex2num-digit n h = ground arith

hex2num-lt : (c : ℕ) {n : ℕ} → hex2num c ≡ some n → n < 16
unfolding hex2num
hex2num-lt c h = ground arith

join_table : passes_until (λ x. join_digits (x / 16) (x % 16) == x) 256 ≡ true
unfolding join_digits passes_until
join_table = refl

-- The two digits do not overlap.
join_digits_lem : (a b : ℕ) → a < 16 → b < 16 → join_digits a b ≡ a * 16 + b
join_digits_lem a b ha hb =
    let x : ℕ = a * 16 + b in
    let e : x / 16 ≡ a = omega arith in
    let f : x % 16 ≡ b = omega arith in
    rw (e, f) at ((==_iff _ x).0 (passes_until-at _ 256 x (omega arith) join_table))

hwaddr_loop-digits :
    (n : ℕ) (b : ℕ) (rest : List ℕ)
    → b < 256
    → hwaddr_loop (suc n) (digit (b / 16) ∷ digit (b % 16) ∷ rest) ≡ (
        if ltb 0 n && (if char_at rest == b':' then false else true)
        then (b ∷ [], false)
        else (b ∷ (hwaddr_loop n (next rest)).0, (hwaddr_loop n (next rest)).1))
unfolding hwaddr_loop
hwaddr_loop-digits n b rest h =
    ground
      (arith, hex2num-digit (b / 16), hex2num-digit (b % 16), join_digits_lem (b / 16) (b % 16))

hwaddr_loop-zero : (txt : List ℕ) → hwaddr_loop 0 txt ≡ ([], true)
unfolding hwaddr_loop
hwaddr_loop-zero txt = refl

loop-print_mac :
    (b : ℕ) (bs rest : List ℕ)
    → AllBytes (b ∷ bs)
    → hwaddr_loop (suc (length bs)) (print_mac (b ∷ bs) ++ rest) ≡ (b ∷ bs, true)
unfolding print_mac
loop-print_mac b [] rest h =
    ground (arith, hwaddr_loop-digits 0 b rest, hwaddr_loop-zero (next rest))
loop-print_mac b (c ∷ bs) rest h = ground (
  arith,
  hwaddr_loop-digits (suc (length bs)) b (b':' ∷ print_mac (c ∷ bs) ++ rest),
  loop-print_mac c bs rest h.1,
)

-- Reading the text of a hardware address of six bytes, whatever follows it, succeeds and stores
-- these six bytes.
pub hwaddr_aton-print_mac :
    (bs rest : List ℕ)
    → length bs ≡ 6
    → AllBytes bs
    → hwaddr_aton (print_mac bs ++ rest) ≡ (bs, true)
unfolding hwaddr_aton
hwaddr_aton-print_mac [] rest e h = absurd (omega arith)
hwaddr_aton-print_mac (b ∷ bs) rest e h =
    let five : length bs ≡ 5 = omega arith in rw five at (loop-print_mac b bs rest h)

-- What the loop stored, as it stops with success or without.
abbrev Stored : ℕ → List ℕ × Bool → Type 0
Stored n r = AllBytes r.0 × (length r.0 ≤ n) × (r.1 ≡ true → length r.0 ≡ n)

hwaddr_loop-Stored : (n : ℕ) (txt : List ℕ) → Stored n (hwaddr_loop n txt)
unfolding hwaddr_loop
hwaddr_loop-Stored zero txt = ground arith
hwaddr_loop-Stored (suc n) txt = elim (Option-cases (hex2num (char_at txt))) [
  | inl e ↦ rw (e, hwaddr_loop) (ground arith)
  | inr (a, e) ↦ elim (Option-cases (hex2num (char_at (next txt)))) [
    | inl f ↦ rw (e, f, hwaddr_loop) (ground arith)
    | inr (b, f) ↦ ground (
      arith,
      hex2num-lt (char_at txt) e,
      hex2num-lt (char_at (next txt)) f,
      join_digits_lem a b,
      hwaddr_loop-Stored n (next (next (next txt))),
    )
  ]
]

-- Whatever the text is, hwaddr_aton stores at most six values, all of them bytes, and if it
-- reports success it stored six.
pub hwaddr_aton_bytes :
    (txt : List ℕ)
    → AllBytes (hwaddr_aton txt).0
      × (length (hwaddr_aton txt).0 ≤ 6)
      × ((hwaddr_aton txt).1 ≡ true → length (hwaddr_aton txt).0 ≡ 6)
unfolding hwaddr_aton
hwaddr_aton_bytes txt = hwaddr_loop-Stored 6 txt
