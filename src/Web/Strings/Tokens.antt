-- ===== src/Web/Strings/Tokens.antt =====
-- strtok takes its tokens from the string, so the loops over the lines of an answer end.
use communication_protocols.Base.{
  ℕ, zero, suc, ◌+◌, ◌≤◌, ◌<◌, ◌≡◌, refl, inl, inr, false, Bool-cases, Option, none, some, List, [],
  ◌∷◌, arith, length, codes,
}
use communication_protocols.Web.Strings.{
  newline, line_loop, each_line, cookie_body, get_cookies, token_body, read_token,
}
use communication_protocols.CString.{contains, is_delimiter, skip, span, strtok, strtok_from}

skip-length : (ds s : List ℕ) → length (skip ds s) ≤ length s
unfolding skip
skip-length ds [] = omega arith
skip-length ds (c ∷ s) = ground (arith, skip-length ds s)

skip-head : (ds s r : List ℕ) (c : ℕ) → skip ds s ≡ c ∷ r → is_delimiter ds c ≡ false
unfolding skip
skip-head ds [] r c e = absurd (cc e)
skip-head ds (d ∷ s) r c e = ground (arith, skip-head ds s r c)

span-length : (ds s : List ℕ) → length (span ds s).0 + length (span ds s).1 ≤ length s
unfolding span
span-length ds [] = omega arith
span-length ds (c ∷ s) = ground (arith, span-length ds s)

-- No token with an empty rest, or a token that is not empty.
pub data Taken (n : ℕ) : Option (List ℕ) × List ℕ → Type 0 where
  nothing : Taken n (none, [])
  token : (u w : List ℕ) → 0 < length u → length u + length w ≤ n → Taken n (some u, w)

span-cons :
    (ds r : List ℕ) (c : ℕ)
    → is_delimiter ds c ≡ false
    → span ds (c ∷ r) ≡ (c ∷ (span ds r).0, (span ds r).1)
unfolding span
span-cons ds r c e = rw e

pub strtok-Taken : (ds s : List ℕ) → Taken (length s) (strtok ds s)
unfolding strtok
strtok-Taken ds s = go (skip ds s) refl
  where
    go : (r : List ℕ) → skip ds s ≡ r → Taken (length s) (strtok ds s)
    go [] e = rw (strtok, e) nothing
    go (c ∷ r) e =
        rw (strtok, e, span-cons ds r c (skip-head ds s r c e))
          (token (c ∷ (span ds r).0) (span ds r).1 (omega arith) (
            let h : suc (length r) ≤ length s = rw e at (skip-length ds s) in
            omega (arith, h, span-length ds r)))

Taken-rest : (n : ℕ) (t : Option (List ℕ) × List ℕ) → Taken n t → length t.1 ≤ n
Taken-rest n _ nothing = omega arith
Taken-rest n _ (token u w more fit) = omega arith

-- The rest is shorter if there was something to take from.
Taken-less : (n : ℕ) (t : Option (List ℕ) × List ℕ) → 0 < n → Taken n t → length t.1 < n
Taken-less n _ h nothing = omega arith
Taken-less n _ h (token u w more fit) = omega arith

-- What a body of the loop does: it leaves less than the line and the rest.
abbrev pub Shrinks : {A : Type 0} → (A → List ℕ → List ℕ → A × List ℕ) → Type 0
Shrinks {A} body =
    (a : A) (line saved : List ℕ)
    → 0 < length line
    → length (body a line saved).1 < length line + length saved

token_body-Shrinks : Shrinks token_body
unfolding token_body
token_body-Shrinks jwt line saved h =
    let a : ℕ = length (strtok (codes ":") line).1 in
    let less : a < length line = Taken-less _ _ h (strtok-Taken (codes ":") line) in
    let le : length (strtok (codes "\"") (strtok (codes ":") line).1).1 ≤ a =
      Taken-rest _ _ (strtok-Taken (codes "\"") (strtok (codes ":") line).1) in
    elim (Bool-cases (contains line (codes "token"))) [
      | inl e ↦ rw e (omega arith)
      | inr e ↦ rw e (omega arith)
    ]

-- The second call of a nested pair, on the token or on what is saved.
from-less :
    (ds : List ℕ) (n : ℕ) (t : Option (List ℕ) × List ℕ)
    → 0 < n
    → Taken n t
    → length (strtok_from ds t.0 t.1).1 < n
unfolding strtok_from
from-less ds n _ h nothing = omega (arith, Taken-rest _ _ (strtok-Taken ds []))
from-less ds n _ h (token u w more fit) = omega (arith, Taken-less _ _ more (strtok-Taken ds u))

cookie_body-Shrinks : Shrinks cookie_body
unfolding cookie_body
cookie_body-Shrinks cookie line saved h =
    let t : Option (List ℕ) × List ℕ = strtok (codes ";") line in
    let v : List ℕ = (strtok_from (codes ":") t.0 t.1).1 in
    let less : length v < length line =
      from-less (codes ":") (length line) t h (strtok-Taken (codes ";") line) in
    let le : length (strtok (codes " ") v).1 ≤ length v =
      Taken-rest _ _ (strtok-Taken (codes " ") v) in
    elim (Bool-cases (contains line (codes "Set-Cookie:"))) [
      | inl e ↦ rw e (omega arith)
      | inr e ↦ rw e (omega arith)
    ]

module _ {A : Type 0} (body : A → List ℕ → List ℕ → A × List ℕ) (shrinks : Shrinks body) where
  line_loop-ends :
      (fuel n : ℕ) (a : A) (t : Option (List ℕ) × List ℕ)
      → Taken n t
      → n < fuel
      → (r : A) × (line_loop body fuel a t.0 t.1 ≡ some r)
  unfolding line_loop
  line_loop-ends zero n a t k h = absurd (omega arith)
  line_loop-ends (suc fuel) n a _ nothing h = (a, refl)
  line_loop-ends (suc fuel) n a _ (token u w more fit) h =
      let v : List ℕ = (body a u w).1 in
      line_loop-ends fuel (length v) (body a u w).0 (strtok newline v) (strtok-Taken newline v)
        (omega (arith, shrinks a u w more))

  pub each_line-ends : (a : A) (response : List ℕ) → (r : A) × (each_line body a response ≡ some r)
  unfolding each_line
  each_line-ends a response =
      line_loop-ends (length response + 1) (length response) a (strtok newline response)
        (strtok-Taken newline response) (omega arith)

-- The loops of get_cookies and of enter_library over the lines of an answer end on every answer,
-- though their bodies call strtok on a line in between.
pub line_loops-end :
    (jwt : Option (List ℕ)) (response : List ℕ)
    → ((c : Option (Option (List ℕ))) × (get_cookies response ≡ some c))
      × ((t : Option (List ℕ)) × (read_token jwt response ≡ some t))
unfolding get_cookies read_token
line_loops-end jwt response = (
  each_line-ends cookie_body cookie_body-Shrinks none response,
  each_line-ends token_body token_body-Shrinks jwt response,
)
