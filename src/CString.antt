-- ===== src/CString.antt =====
-- The functions of the C library on strings, as it documents them: strcmp as an equality, strstr,
-- strtok, the skipping of white space, the decimal conversions of printf and scanf, and atoi. A C
-- string is the list of its characters up to its terminator. strtok keeps a pointer between its
-- calls: `saved` is the string it points to.
use communication_protocols.Base.{
  ℕ, ◌+◌, ◌-◌, ◌*◌, ◌^◌, min, ◌/◌, ◌%◌, ◌<◌, ◌≡◌, ◌↔◌, refl, Bool, true, false, ◌&&◌, ◌||◌, Option,
  none, some, List, [], ◌∷◌, ◌++◌, arith, ◌==◌, leb, if◌then◌else◌, Acc, dite, dec_lt, lt_wf,
}

-- strcmp(s, t) == 0
abbrev pub same : List ℕ → List ℕ → Bool
same s [] = elim s [ [] ↦ true | _ ∷ _ ↦ false ]
same [] (d ∷ t) = false
same (c ∷ s) (d ∷ t) = (c == d) && same s t

pub same_iff : (s t : List ℕ) → (same s t ≡ true) ↔ (s ≡ t)
same_iff [] [] = (λ _. refl, λ _. refl)
same_iff [] (d ∷ t) = ground arith
same_iff (c ∷ s) [] = ground arith
same_iff (c ∷ s) (d ∷ t) = ground (arith, same_iff s t)

-- The string at the start of some bytes, with zeros behind them.
unfoldable pub c_text : List ℕ → List ℕ
c_text [] = []
c_text (b ∷ bs) = if b == 0 then [] else b ∷ c_text bs

abbrev pub NoZero : List ℕ → Type 0
NoZero [] = Unit {0}
NoZero (c ∷ s) = ((c == 0) ≡ false) × NoZero s

pub c_text-whole : (s r : List ℕ) → NoZero s → c_text (s ++ r) ≡ s ++ c_text r
unfolding c_text
c_text-whole [] r h = refl
c_text-whole (c ∷ s) r h = rw (h.0, c_text-whole s r h.1)

-- isspace
abbrev pub is_space : ℕ → Bool
is_space c = (c == 32) || (leb 9 c && leb c 13)

unfoldable pub skip_spaces : List ℕ → List ℕ
skip_spaces [] = []
skip_spaces (c ∷ s) = if is_space c then skip_spaces s else c ∷ s

unfoldable pub is_prefix : List ℕ → List ℕ → Bool
is_prefix [] s = true
is_prefix (c ∷ cs) [] = false
is_prefix (c ∷ cs) (d ∷ s) = (c == d) && is_prefix cs s

-- strstr(s, needle) != NULL
unfoldable pub contains : List ℕ → List ℕ → Bool
unfolding is_prefix
contains [] needle = is_prefix needle []
contains (c ∷ s) needle = is_prefix needle (c ∷ s) || contains s needle

unfoldable pub is_delimiter : List ℕ → ℕ → Bool
is_delimiter [] c = false
is_delimiter (d ∷ ds) c = (d == c) || is_delimiter ds c

unfoldable pub skip : List ℕ → List ℕ → List ℕ
skip ds [] = []
skip ds (c ∷ s) = if is_delimiter ds c then skip ds s else c ∷ s

-- The characters before the first delimiter, and those behind it.
unfoldable pub span : List ℕ → List ℕ → List ℕ × List ℕ
span ds [] = ([], [])
span ds (c ∷ s) =
    let rest = span ds s in if is_delimiter ds c then ([], s) else (c ∷ rest.0, rest.1)

-- The token, and what is saved.
unfoldable pub strtok : List ℕ → List ℕ → Option (List ℕ) × List ℕ
unfolding skip span is_delimiter
strtok ds s = elim (skip ds s) [
  | [] ↦ (none, [])
  | c ∷ r ↦ (some (span ds (c ∷ r)).0, (span ds (c ∷ r)).1)
]

-- A NULL argument goes on with the saved string.
unfoldable pub strtok_from : List ℕ → Option (List ℕ) → List ℕ → Option (List ℕ) × List ℕ
strtok_from ds none saved = strtok ds saved
strtok_from ds (some s) saved = strtok ds s

-- %ld of a number that is not negative
unfoldable pub decimal_acc : (n : ℕ) → Acc ◌<◌ n → List ℕ
decimal_acc n (Acc.intro _ smaller) =
    dite (dec_lt n 10) (λ _. (b'0' + n) ∷ [])
      (λ big. decimal_acc (n / 10) (smaller (n / 10) (omega arith)) ++ (b'0' + n % 10) ∷ [])

unfoldable pub decimal : ℕ → List ℕ
unfolding decimal_acc lt_wf dec_lt
decimal n = decimal_acc n (lt_wf.apply n)

abbrev pub is_digit : ℕ → Bool
is_digit c = leb b'0' c && leb c b'9'

unfoldable pub scan_digits : ℕ → List ℕ → ℕ
scan_digits acc [] = acc
scan_digits acc (c ∷ s) =
    let rest = scan_digits (acc * 10 + (c - b'0')) s in if is_digit c then rest else acc

-- The number, up to the largest one of the type that holds it before it is cut to an int.
unfoldable pub number : (most : ℕ) → List ℕ → Option ℕ
unfolding scan_digits
number most [] = none
number most (c ∷ s) = if is_digit c then some (min (scan_digits 0 (c ∷ s)) most % 2 ^ 32) else none

-- %d, as the bits of an int
unfoldable pub scan_int : List ℕ → Option ℕ
unfolding skip_spaces number
scan_int s = elim (skip_spaces s) [
  | [] ↦ none
  | c ∷ r ↦
      if c == b'-'
      then (elim (number (2 ^ 63) r) [ none ↦ none | some n ↦ some ((2 ^ 32 - n) % 2 ^ 32) ])
      else if c == b'+'
      then number (2 ^ 63 - 1) r
      else number (2 ^ 63 - 1) (c ∷ r)
]

-- atoi, as the bits of an int
unfoldable pub atoi : List ℕ → ℕ
unfolding scan_int
atoi s = elim (scan_int s) [ none ↦ 0 | some n ↦ n ]
