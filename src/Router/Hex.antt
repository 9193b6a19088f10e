-- ===== src/Router/Hex.antt =====
-- Hardware addresses in text: hex2num, hex2byte and hwaddr_aton of Tema_1/skel.c. A C string is
-- the list of its characters, and reading past its end gives the terminator 0. The `-1` of
-- hex2num is `none`.
pub mod RoundTrip
use Prim.Native.Nat.{bit_or}
use communication_protocols.Base.{
  ℕ, zero, suc, ◌+◌, ◌-◌, ◌*◌, ◌/◌, ◌%◌, Bool, true, false, ◌&&◌, Option, none, some, List, [], ◌∷◌,
  leb, ltb, ◌==◌, if◌then◌else◌,
}

-- *txt, and txt + 1
abbrev pub char_at : List ℕ → ℕ
char_at [] = 0
char_at (c ∷ s) = c

abbrev pub next : List ℕ → List ℕ
next [] = []
next (c ∷ s) = s

pub hex2num : ℕ → Option ℕ
hex2num c =
    if leb b'0' c && leb c b'9'
    then some (c - b'0')
    else if leb b'a' c && leb c b'f'
    then some (c - b'a' + 10)
    else if leb b'A' c && leb c b'F'
    then some (c - b'A' + 10)
    else none

-- (a << 4) | b
pub join_digits : ℕ → ℕ → ℕ
join_digits a b = bit_or (a * 16) b

pub hex2byte : List ℕ → Option ℕ
hex2byte txt = elim (hex2num (char_at txt)) [
  | none ↦ none
  | some a ↦ elim (hex2num (char_at (next txt))) [ none ↦ none | some b ↦ some (join_digits a b) ]
]

-- The rounds of hwaddr_aton that are left, the bytes stored so far, and whether it returned 0.
-- The buffer keeps the bytes that were stored before a failure.
pub hwaddr_loop : ℕ → List ℕ → List ℕ × Bool
hwaddr_loop zero txt = ([], true)
hwaddr_loop (suc n) txt = elim (hex2num (char_at txt)) [
  | none ↦ ([], false)
  | some a ↦ elim (hex2num (char_at (next txt))) [
    | none ↦ ([], false)
    | some b ↦
        let rest = hwaddr_loop n (next (next (next txt))) in
        if ltb 0 n && (if char_at (next (next txt)) == b':' then false else true)
        then (join_digits a b ∷ [], false)
        else (join_digits a b ∷ rest.0, rest.1)
  ]
]

-- Six rounds, with `i < 5` for a round that is not the last.
unfoldable pub hwaddr_aton : List ℕ → List ℕ × Bool
unfolding hwaddr_loop hex2num join_digits
hwaddr_aton txt = hwaddr_loop 6 txt

-- A digit's lower-case character, and an address in text.
pub digit : ℕ → ℕ
digit n = if ltb n 10 then b'0' + n else b'a' + (n - 10)

pub print_mac : List ℕ → List ℕ
unfolding digit
print_mac [] = []
print_mac (b ∷ []) = digit (b / 16) ∷ digit (b % 16) ∷ []
print_mac (b ∷ c ∷ r) = digit (b / 16) ∷ digit (b % 16) ∷ b':' ∷ print_mac (c ∷ r)
