-- ===== src/Web/Buffer/Find.antt =====
-- The searches of Tema_3/buffer.c give the first position at which the needle stands.
use communication_protocols.Base.{
  ℕ, zero, suc, ◌+◌, ◌-◌, ◌≤◌, ◌<◌, ◌≡◌, refl, ap, ◌∙◌, inl, inr, Bool, true, false, ◌&&◌, Option,
  none, some, List, [], ◌∷◌, arith, ltb, ◌==◌, Bool-cases, length, get_elem?, drop, dec_lt,
}
use communication_protocols.Web.Buffer.{
  Buffer, compare_at, find_loop, find_by, tolower, buffer_find, buffer_find_insensitive,
}
use communication_protocols.Web.Buffer.Contents.{Contents}

-- The needle is a prefix of the bytes, up to `eq`.
abbrev pub starts_with : (ℕ → ℕ → Bool) → List ℕ → List ℕ → Bool
starts_with eq bs [] = true
starts_with eq [] (c ∷ cs) = false
starts_with eq (b ∷ bs) (c ∷ cs) = eq b c && starts_with eq bs cs

-- It stands at position `i`.
abbrev pub occurs : (ℕ → ℕ → Bool) → List ℕ → List ℕ → ℕ → Bool
occurs eq bs cs i = starts_with eq (drop i bs) cs

-- The first position of the needle, or none.
abbrev pub IsFirst : (ℕ → ℕ → Bool) → List ℕ → List ℕ → Option ℕ → Type 0
IsFirst eq bs cs (some i) =
    (occurs eq bs cs i ≡ true)
    × (i + length cs ≤ length bs)
    × ((k : ℕ) → k < i → occurs eq bs cs k ≡ false)
IsFirst eq bs cs none = (k : ℕ) → k + length cs ≤ length bs → occurs eq bs cs k ≡ false

module _ (eq : ℕ → ℕ → Bool) where
  drop-cons :
      (d : List ℕ) (i : ℕ)
      → i < length d
      → (b : ℕ) × (get_elem? d i ≡ some b) × (drop i d ≡ b ∷ drop (suc i) d)
  drop-cons [] i h = absurd (omega arith)
  drop-cons (b ∷ d) zero h = (b, refl, refl)
  drop-cons (b ∷ d) (suc i) h = drop-cons d i (omega arith)

  compare_at-occurs :
      (d : List ℕ) (i : ℕ) (cs : List ℕ)
      → i + length cs ≤ length d
      → compare_at eq d i cs ≡ some (occurs eq d cs i)
  unfolding compare_at
  compare_at-occurs d i [] h = refl
  compare_at-occurs d i (c ∷ cs) h =
      let (b, e, f) = drop-cons d i (omega arith) in
      let s : i + 1 ≡ suc i = omega arith in
      let ih : compare_at eq d (i + 1) cs ≡ some (starts_with eq (drop (suc i) d) cs) =
        compare_at-occurs d (i + 1) cs (omega arith)
        ∙ ap (λ j. some (starts_with eq (drop j d) cs)) s in
      rw (compare_at, e, f, ih) (ground arith)

  find_loop-IsFirst :
      (d cs : List ℕ) (i n : ℕ)
      → i + n + length cs ≡ length d + 1
      → ((k : ℕ) → k < i → occurs eq d cs k ≡ false)
      → (r : Option ℕ) × (find_loop eq d cs i n ≡ some r) × IsFirst eq d cs r
  unfolding find_loop
  find_loop-IsFirst d cs i zero e before = (none, refl, λ k h. before k (omega arith))
  find_loop-IsFirst d cs i (suc n) e before = elim (Bool-cases (occurs eq d cs i)) [
    | inl here ↦ (
      some i,
      rw (compare_at-occurs d i cs (omega arith), here, find_loop),
      (here, omega arith, before),
    )
    | inr absent ↦
        let before' : ((k : ℕ) → k < i + 1 → occurs eq d cs k ≡ false) = (λ k h. elim (dec_lt k i) [
          | yes lt ↦ before k lt
          | no ge ↦ let z : k ≡ i = omega arith in rw z absent
        ]) in
        let (r, f, first) = find_loop-IsFirst d cs (i + 1) n (omega arith) before' in
        (r, rw (compare_at-occurs d i cs (omega arith), absent, find_loop) f, first)
  ]

  -- What the searches read is what the buffer holds.
  data_of :
      (b : Buffer) (bs : List ℕ)
      → Contents b bs
      → (elim b.block as (λ _. List ℕ) [ none ↦ [] | some d ↦ d ]) ≡ bs
  data_of b bs c = elim c.block [ inl held ↦ rw held | inr (absent, empty) ↦ rw (absent, empty) ]

  pub find_by-IsFirst :
      (b : Buffer) (bs cs : List ℕ)
      → Contents b bs
      → (r : Option ℕ) × (find_by eq b cs ≡ some r) × IsFirst eq bs cs r
  unfolding find_by
  find_by-IsFirst b bs cs c = elim (dec_lt (length bs) (length cs)) [
    | yes short ↦
        let e : ltb b.size (length cs) ≡ true =
          let z : b.size ≡ length bs = c.size in ground arith in
        (none, rw (e, find_by), λ k h. absurd (omega arith))
    | no room ↦
        let e : ltb b.size (length cs) ≡ false =
          let z : b.size ≡ length bs = c.size in ground arith in
        let (r, f, first) =
          find_loop-IsFirst bs cs 0 (b.size - length cs + 1) (omega (arith, c.size))
            (λ k h. absurd (omega arith)) in
        (r, rw (e, data_of b bs c, find_by) f, first)
  ]

-- On a buffer that holds bs, buffer_find returns without an access outside the block, with the first
-- position at which the needle stands in bs, or with -1 if it stands nowhere.
pub buffer_find-IsFirst :
    (b : Buffer) (bs cs : List ℕ)
    → Contents b bs
    → (r : Option ℕ) × (buffer_find b cs ≡ some r) × IsFirst (λ a c. a == c) bs cs r
unfolding buffer_find
buffer_find-IsFirst b bs cs c = find_by-IsFirst (λ a c. a == c) b bs cs c

-- So does buffer_find_insensitive, where letters are compared without their case.
pub buffer_find_insensitive-IsFirst :
    (b : Buffer) (bs cs : List ℕ)
    → Contents b bs
    → (r : Option ℕ) × (buffer_find_insensitive b cs ≡ some r)
      × IsFirst (λ a c. tolower a == tolower c) bs cs r
unfolding buffer_find_insensitive
buffer_find_insensitive-IsFirst b bs cs c =
    find_by-IsFirst (λ a c. tolower a == tolower c) b bs cs c
