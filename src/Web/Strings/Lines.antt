-- ===== src/Web/Strings/Lines.antt =====
-- strtok on a text of lines, and the loops of get_cookies and of enter_library (Tema_3/helpers.c and
-- client.c) over the lines that they pass over.
use communication_protocols.Base.{
  ℕ, suc, ◌+◌, ◌≡◌, refl, ap, inl, inr, if◌then◌else◌, Bool, true, false, Bool-cases, none, some,
  List, [], ◌∷◌, ◌++◌, append_assoc, arith, length,
}
use communication_protocols.Web.Strings.{newline, line_loop}
use communication_protocols.CString.{contains, is_delimiter, skip, span, strtok}

-- No character of the string is a delimiter.
abbrev pub Free : List ℕ → List ℕ → Type 0
Free ds [] = Unit {0}
Free ds (c ∷ s) = (is_delimiter ds c ≡ false) × Free ds s

abbrev pub all_free : List ℕ → List ℕ → Bool
all_free ds [] = true
all_free ds (c ∷ s) = if is_delimiter ds c then false else all_free ds s

pub all_free-Free : (ds s : List ℕ) → all_free ds s ≡ true → Free ds s
all_free-Free ds [] h = tt
all_free-Free ds (c ∷ s) h = elim (Bool-cases (is_delimiter ds c)) [
  | inl e ↦ absurd (cc (rw e at h))
  | inr e ↦ (e, all_free-Free ds s (rw e at h))
]

pub Free-append : (ds s r : List ℕ) → Free ds s → Free ds r → Free ds (s ++ r)
Free-append ds [] r h k = k
Free-append ds (c ∷ s) r h k = (h.0, Free-append ds s r h.1 k)

pub span-Free :
    (ds s r : List ℕ) (d : ℕ)
    → Free ds s
    → is_delimiter ds d ≡ true
    → span ds (s ++ (d ∷ r)) ≡ (s, r)
unfolding span
span-Free ds [] r d h e = rw e refl
span-Free ds (c ∷ s) r d (h, more) e = rw (h, span-Free ds s r d more e) refl

span-all : (ds s : List ℕ) → Free ds s → span ds s ≡ (s, [])
unfolding span
span-all ds [] h = refl
span-all ds (c ∷ s) (h, more) = rw (h, span-all ds s more) refl

skip-Free : (ds s : List ℕ) (c : ℕ) → is_delimiter ds c ≡ false → skip ds (c ∷ s) ≡ c ∷ s
unfolding skip
skip-Free ds s c h = rw h refl

-- A token that ends at a delimiter, or with the string.
pub strtok-Free :
    (ds s r : List ℕ) (c d : ℕ)
    → Free ds (c ∷ s)
    → is_delimiter ds d ≡ true
    → strtok ds (c ∷ (s ++ (d ∷ r))) ≡ (some (c ∷ s), r)
unfolding strtok
strtok-Free ds s r c d free e =
    rw (skip-Free ds (s ++ (d ∷ r)) c free.0, span-Free ds (c ∷ s) r d free e, strtok) refl

pub strtok-all : (ds s : List ℕ) (c : ℕ) → Free ds (c ∷ s) → strtok ds (c ∷ s) ≡ (some (c ∷ s), [])
unfolding strtok
strtok-all ds s c free = rw (skip-Free ds s c free.0, span-all ds (c ∷ s) free, strtok) refl

-- Delimiters in front are passed over.
pub strtok-skip :
    (ds s : List ℕ) (d : ℕ) → is_delimiter ds d ≡ true → strtok ds (d ∷ s) ≡ strtok ds s
unfolding strtok skip
strtok-skip ds s d e = rw (e, strtok) refl

pub strtok-nil : (ds : List ℕ) → strtok ds [] ≡ (none, [])
unfolding strtok skip
strtok-nil ds = refl

-- A line that is not empty, without a newline and the word.
pub record IsOther (word line : List ℕ) : Type 0 where
  pub first : ℕ
  pub others : List ℕ
  pub form : line ≡ first ∷ others
  pub free : Free newline (first ∷ others)
  pub without : contains (first ∷ others) word ≡ false

abbrev pub Others : (word : List ℕ) → List (List ℕ) → Type 0
Others word [] = Unit {0}
Others word (l ∷ ls) = IsOther word l × Others word ls

-- The lines, each with its newline.
abbrev pub text : List (List ℕ) → List ℕ
text [] = []
text (l ∷ ls) = l ++ (b'\n' ∷ text ls)

-- A round of the loop, and its end.
module _ {A : Type 0} (body : A → List ℕ → List ℕ → A × List ℕ) (fuel : ℕ) where
  pub line_loop-step :
      (a a' : A) (s l rest s' : List ℕ)
      → strtok newline s ≡ (some l, rest)
      → body a l rest ≡ (a', s')
      → line_loop body (suc fuel) a (strtok newline s).0 (strtok newline s).1
        ≡ line_loop body fuel a' (strtok newline s').0 (strtok newline s').1
  unfolding line_loop
  line_loop-step a a' s l rest s' taken step =
      rw (taken, line_loop)
        (ap
          (λ (r : A × List ℕ).
            line_loop body fuel r.0 (strtok newline r.1).0 (strtok newline r.1).1)
          step)

  pub line_loop-end :
      (a : A) → line_loop body (suc fuel) a (strtok newline []).0 (strtok newline []).1 ≡ some a
  unfolding line_loop
  line_loop-end a = rw (strtok-nil newline, line_loop) refl

-- The loop passes over the lines that its body leaves alone.
module _ {A : Type 0} (body : A → List ℕ → List ℕ → A × List ℕ) (word : List ℕ) (a : A)
    (leaves : (line saved : List ℕ)
      → contains line word ≡ false
      → body a line saved ≡ (a, saved)) where
  pub line_loop-Others :
      (ls : List (List ℕ)) (fuel : ℕ) (s : List ℕ)
      → Others word ls
      → line_loop body
          (length ls + fuel)
          a
          (strtok newline (text ls ++ s)).0
          (strtok newline (text ls ++ s)).1
        ≡ line_loop body fuel a (strtok newline s).0 (strtok newline s).1
  unfolding line_loop is_delimiter
  line_loop-Others [] fuel s h = let same : 0 + fuel ≡ fuel = omega arith in rw same refl
  line_loop-Others (l ∷ ls) fuel s (other, more) =
      let same : suc (length ls) + fuel ≡ suc (length ls + fuel) = omega arith in
      let taken : strtok newline ((l ++ (b'\n' ∷ text ls)) ++ s)
          ≡ (some (other.first ∷ other.others), text ls ++ s) =
        rw other.form (
          rw (append_assoc other.others (b'\n' ∷ text ls) s)
            (strtok-Free newline other.others (text ls ++ s) other.first b'\n' other.free refl)) in
      rw (same, taken, leaves (other.first ∷ other.others) (text ls ++ s) other.without, line_loop)
        (line_loop-Others ls fuel s more)
