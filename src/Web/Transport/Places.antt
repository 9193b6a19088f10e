-- ===== src/Web/Transport/Places.antt =====
-- Where strings stand in the first bytes of an answer, and what strtol reads there: the searches of
-- receive_from_server in Tema_3/helpers.c before the answer is whole.
use communication_protocols.Base.{
  ℕ, zero, suc, ◌+◌, ◌-◌, ◌*◌, ◌≤◌, ◌≡◌, refl, sym, ap, ◌∙◌, Bool, true, Bool-cases, inl, inr,
  dec_lt, ◌&&◌, Option, none, some, Option-cases, List, [], ◌∷◌, ◌++◌, arith, ◌==◌, length, drop,
}
use communication_protocols.CString.{skip_spaces, is_space}
use communication_protocols.Web.Buffer.Find.{starts_with, occurs, IsFirst}
use communication_protocols.Web.Transport.{digits, strtol, on_some, of_long, of_negative_long}

pub drop-append : (n : ℕ) (xs ys : List ℕ) → n ≤ length xs → drop n (xs ++ ys) ≡ drop n xs ++ ys
drop-append zero xs ys h = refl
drop-append (suc n) [] ys h = absurd (omega arith)
drop-append (suc n) (x ∷ xs) ys h = drop-append n xs ys (omega arith)

starts_with-append :
    (eq : ℕ → ℕ → Bool) (xs ys cs : List ℕ)
    → length cs ≤ length xs
    → starts_with eq (xs ++ ys) cs ≡ starts_with eq xs cs
starts_with-append eq xs ys [] h = refl
starts_with-append eq [] ys (c ∷ cs) h = absurd (omega arith)
starts_with-append eq (x ∷ xs) ys (c ∷ cs) h =
    ap (λ b. eq x c && b) (starts_with-append eq xs ys cs (omega arith))

length-drop_le : (n : ℕ) (xs : List ℕ) (m : ℕ) → n + m ≤ length xs → m ≤ length (drop n xs)
length-drop_le zero xs m h = omega arith
length-drop_le (suc n) [] m h = omega arith
length-drop_le (suc n) (x ∷ xs) m h = length-drop_le n xs m (omega arith)

-- More bytes behind do not change what stands before them.
pub occurs-append :
    (eq : ℕ → ℕ → Bool) (xs ys cs : List ℕ) (k : ℕ)
    → k + length cs ≤ length xs
    → occurs eq (xs ++ ys) cs k ≡ occurs eq xs cs k
occurs-append eq xs ys cs k h =
    ap (λ l. starts_with eq l cs) (drop-append k xs ys (omega arith))
    ∙ starts_with-append eq (drop k xs) ys cs (length-drop_le k xs (length cs) h)

-- The needle stands first at `i` in `head`, and `bs` and `head` are prefixes of the same bytes.
module _ (eq : ℕ → ℕ → Bool) (head body bs more cs : List ℕ) (i : ℕ)
    (first : IsFirst eq head cs (some i)) (same : bs ++ more ≡ head ++ body) where
  both :
      (k : ℕ)
      → k + length cs ≤ length head
      → k + length cs ≤ length bs
      → occurs eq bs cs k ≡ occurs eq head cs k
  both k h g =
      sym (occurs-append eq bs more cs k g)
      ∙ ap (λ l. occurs eq l cs k) same
      ∙ occurs-append eq head body cs k h

  not_before : (j : ℕ) → occurs eq bs cs j ≡ true → j + length cs ≤ length bs → i ≤ j
  not_before j here fits = elim (dec_lt j i) [
    | no ge ↦ omega arith
    | yes lt ↦
        let fits' : i + length cs ≤ length head = first.1 in
        absurd (cc (here, both j (omega arith) fits, first.2 j lt))
  ]

  -- Once all of `head` is there, a search finds the same place.
  pub found_same : (r : Option ℕ) → IsFirst eq bs cs r → length head ≤ length bs → r ≡ some i
  found_same none h enough =
      let fits : i + length cs ≤ length head = first.1 in
      absurd (cc (first.0, both i fits (omega arith), h i (omega arith)))
  found_same (some j) (here, fits', before) enough =
      let fits : i + length cs ≤ length head = first.1 in
      let le : i ≤ j = not_before j here fits' in
      elim (dec_lt i j) [
        | yes lt ↦ absurd (cc (first.0, both i fits (omega arith), before i lt))
        | no ge ↦ let e : j ≡ i = omega arith in ap (λ k. some k) e
      ]

  -- If it ends `head`, it is not found before all of `head` is there.
  pub found_late :
      (j : ℕ) → IsFirst eq bs cs (some j) → i + length cs ≡ length head → length head ≤ length bs
  found_late j (here, fits, before) ends = let le : i ≤ j = not_before j here fits in omega arith

digits-append :
    (acc : ℕ) (s r : List ℕ) (n : ℕ) → digits acc s ≡ some n → digits acc (s ++ r) ≡ some n
unfolding digits
digits-append acc [] r n e = absurd (cc e)
digits-append acc (c ∷ s) r n e = ground (arith, digits-append (acc * 10 + (c - b'0')) s r n)

skip_spaces-append :
    (s r t : List ℕ) (c : ℕ) → skip_spaces s ≡ c ∷ t → skip_spaces (s ++ r) ≡ c ∷ (t ++ r)
unfolding skip_spaces
skip_spaces-append [] r t c e = absurd (cc e)
skip_spaces-append (d ∷ s) r t c e = elim (Bool-cases (is_space d)) [
  | inl f ↦ rw f (skip_spaces-append s r t c (rw f at e))
  | inr f ↦ rw f (ap (λ l. l ++ r) (rw f at e))
]

on_some-append :
    (f : ℕ → ℕ) (acc : ℕ) (s r : List ℕ) (n : ℕ)
    → on_some f (digits acc s) ≡ some n
    → on_some f (digits acc (s ++ r)) ≡ some n
on_some-append f acc s r n e = elim (Option-cases (digits acc s)) [
  | inl g ↦ absurd (cc (rw g at e))
  | inr (m, g) ↦ rw (digits-append acc s r m g) (rw g at e)
]

-- A number that ends within the bytes is read as before with more bytes behind.
pub strtol-append : (s r : List ℕ) (n : ℕ) → strtol s ≡ some n → strtol (s ++ r) ≡ some n
unfolding strtol
strtol-append s r n e = go (skip_spaces s) refl
  where
    go : (t : List ℕ) → skip_spaces s ≡ t → strtol (s ++ r) ≡ some n
    go [] f = absurd (cc (rw (strtol, f) at e))
    go (c ∷ t) f =
        rw (skip_spaces-append s r t c f, strtol)
          (elim (Bool-cases (c == b'-')) [
            | inl g ↦ rw g (on_some-append of_negative_long 0 t r n (rw (strtol, f, g) at e))
            | inr g ↦ elim (Bool-cases (c == b'+')) [
              | inl h ↦ rw (g, h) (on_some-append of_long 0 t r n (rw (strtol, f, g, h) at e))
              | inr h ↦ rw (g, h) (on_some-append of_long 0 (c ∷ t) r n (rw (strtol, f, g, h) at e))
            ]
          ])
