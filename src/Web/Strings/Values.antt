-- ===== src/Web/Strings/Values.antt =====
-- What get_cookies of Tema_3/helpers.c and enter_library of client.c read from the answers that set
-- them.
use communication_protocols.Base.{
  ℕ, suc, ◌+◌, ◌-◌, ◌≤◌, ◌<◌, ◌≡◌, refl, ◌∙◌, false, Option, none, some, List, [], ◌∷◌, ◌++◌, arith,
  length, length-append, codes,
}
use communication_protocols.Web.Strings.{
  newline, line_loop, each_line, cookie_body, get_cookies, token_body, read_token,
}
use communication_protocols.CString.{is_prefix, contains, is_delimiter, strtok, strtok_from}
use communication_protocols.Web.Strings.Lines.{
  Free, all_free-Free, Free-append, strtok-Free, strtok-all, strtok-skip, Others, text,
  line_loop-step, line_loop-end, line_loop-Others,
}

abbrev set_cookie : List ℕ
set_cookie = codes "Set-Cookie:"

cookie_body-leaves :
    (a : Option (Option (List ℕ))) (line saved : List ℕ)
    → contains line set_cookie ≡ false
    → cookie_body a line saved ≡ (a, saved)
unfolding cookie_body
cookie_body-leaves a line saved e = rw (e, cookie_body) refl

token_body-leaves :
    (a : Option (List ℕ)) (line saved : List ℕ)
    → contains line (codes "token") ≡ false
    → token_body a line saved ≡ (a, saved)
unfolding token_body
token_body-leaves a line saved e = rw (e, token_body) refl

-- The value of a cookie: not empty, and without the characters that end it.
pub record IsValue (c : ℕ) (v : List ℕ) : Type 0 where
  pub one_line : Free newline (c ∷ v)
  pub no_semicolon : Free (codes ";") (c ∷ v)
  pub no_space : Free (codes " ") (c ∷ v)

-- Set-Cookie: <value>;<attributes>
abbrev pub cookie_line : ℕ → (v attributes : List ℕ) → List ℕ
cookie_line c v attributes = set_cookie ++ (b' ' ∷ c ∷ (v ++ (b';' ∷ attributes)))

module _ (c : ℕ) (v attributes : List ℕ) (value : IsValue c v) where
  cookie_of_line :
      (saved : List ℕ)
      → cookie_body none (cookie_line c v attributes) saved ≡ (some (some (c ∷ v)), [])
  unfolding cookie_body contains is_prefix strtok_from is_delimiter
  cookie_of_line saved =
      let name_free : Free (codes ";") (codes "Set-Cookie: ") =
        all_free-Free (codes ";") (codes "Set-Cookie: ") refl in
      let field : strtok (codes ";") (cookie_line c v attributes)
          ≡ (some (codes "Set-Cookie: " ++ (c ∷ v)), attributes) =
        strtok-Free (codes ";") (codes "et-Cookie: " ++ (c ∷ v)) attributes b'S' b';'
          (Free-append (codes ";") (codes "Set-Cookie: ") (c ∷ v) name_free value.no_semicolon)
          refl in
      let name : strtok (codes ":") (codes "Set-Cookie: " ++ (c ∷ v))
          ≡ (some (codes "Set-Cookie"), b' ' ∷ c ∷ v) =
        strtok-Free (codes ":") (codes "et-Cookie") (b' ' ∷ c ∷ v) b'S' b':'
          (all_free-Free (codes ":") (codes "Set-Cookie") refl) refl in
      let rest : strtok (codes " ") (b' ' ∷ c ∷ v) ≡ (some (c ∷ v), []) =
        strtok-skip (codes " ") (c ∷ v) b' ' refl ∙ strtok-all (codes " ") v c value.no_space in
      rw (field, name, rest) refl

  cookie_line-Free : Free newline attributes → Free newline (cookie_line c v attributes)
  unfolding is_delimiter
  cookie_line-Free h =
      Free-append newline (codes "Set-Cookie: ") (c ∷ (v ++ (b';' ∷ attributes)))
        (all_free-Free newline (codes "Set-Cookie: ") refl)
        (Free-append newline (c ∷ v) (b';' ∷ attributes) value.one_line (refl, h))

-- {"token":"<value>"}
abbrev pub token_line : ℕ → List ℕ → List ℕ
token_line c v = codes "{\"token\":" ++ (b'"' ∷ c ∷ (v ++ codes "\"}"))

pub record IsToken (c : ℕ) (v : List ℕ) : Type 0 where
  pub one_line : Free newline (c ∷ v)
  pub no_quote : Free (codes "\"") (c ∷ v)

module _ (c : ℕ) (v : List ℕ) (token : IsToken c v) where
  token_of_line :
      (jwt : Option (List ℕ)) (saved : List ℕ)
      → token_body jwt (token_line c v) saved ≡ (some (c ∷ v), codes "}")
  unfolding token_body contains is_prefix is_delimiter
  token_of_line jwt saved =
      let name : strtok (codes ":") (token_line c v)
          ≡ (some (codes "{\"token\""), b'"' ∷ c ∷ (v ++ codes "\"}")) =
        strtok-Free (codes ":") (codes "\"token\"") (b'"' ∷ c ∷ (v ++ codes "\"}")) b'{' b':'
          (all_free-Free (codes ":") (codes "{\"token\"") refl) refl in
      let value : strtok (codes "\"") (b'"' ∷ c ∷ (v ++ codes "\"}")) ≡ (some (c ∷ v), codes "}") =
        strtok-skip (codes "\"") (c ∷ (v ++ codes "\"}")) b'"' refl
        ∙ strtok-Free (codes "\"") v (codes "}") c b'"' token.no_quote refl in
      rw (name, value) refl

  token_line-Free : Free newline (token_line c v)
  unfolding is_delimiter
  token_line-Free =
      Free-append newline (codes "{\"token\":\"") (c ∷ (v ++ codes "\"}"))
        (all_free-Free newline (codes "{\"token\":\"") refl)
        (Free-append newline (c ∷ v) (codes "\"}") token.one_line
          (all_free-Free newline (codes "\"}") refl))

-- The loops at the line that has the value.
module _ (c : ℕ) (v : List ℕ) (k : ℕ) (s rest : List ℕ) where
  last_cookie :
      (attributes : List ℕ)
      → IsValue c v
      → strtok newline s ≡ (some (cookie_line c v attributes), rest)
      → line_loop cookie_body (suc (suc (suc k))) none (strtok newline s).0 (strtok newline s).1
        ≡ some (some (some (c ∷ v)))
  last_cookie attributes value taken =
      line_loop-step cookie_body (suc (suc k)) none (some (some (c ∷ v))) s
        (cookie_line c v attributes) rest [] taken (cookie_of_line c v attributes value rest)
      ∙ line_loop-end cookie_body (suc k) (some (some (c ∷ v)))

  last_token :
      (jwt : Option (List ℕ))
      → IsToken c v
      → strtok newline s ≡ (some (token_line c v), rest)
      → line_loop token_body (suc (suc (suc k))) jwt (strtok newline s).0 (strtok newline s).1
        ≡ some (some (c ∷ v))
  unfolding contains is_prefix is_delimiter
  last_token jwt token taken =
      line_loop-step token_body (suc (suc k)) jwt (some (c ∷ v)) s (token_line c v) rest (codes "}")
        taken (token_of_line c v token jwt rest)
      ∙ line_loop-step token_body (suc k) (some (c ∷ v)) (some (c ∷ v)) (codes "}") (codes "}") []
          [] (strtok-all newline [] b'}' (all_free-Free newline (codes "}") refl))
          (token_body-leaves (some (c ∷ v)) (codes "}") [] refl)
      ∙ line_loop-end token_body k (some (c ∷ v))

length-text : (ls : List (List ℕ)) → length ls ≤ length (text ls)
length-text [] = omega arith
length-text (l ∷ ls) = omega (arith, length-text ls, length-append l (b'\n' ∷ text ls))

-- The loop over the lines has enough fuel for those that it passes over, and three more.
enough :
    (ls : List (List ℕ)) (s : List ℕ)
    → 1 < length s
    → (k : ℕ) × (length (text ls ++ s) + 1 ≡ length ls + suc (suc (suc k)))
enough ls s h = (
  length (text ls ++ s) - length ls - 2,
  omega (arith, length-append (text ls) s, length-text ls),
)

module _ (c : ℕ) (v : List ℕ) where
  -- The cookie that get_cookies reads from an answer is the value of its first line with Set-Cookie, up
  -- to the semicolon, whatever stands behind this line: the loop ends there.
  pub get_cookies-IsValue :
      (ls : List (List ℕ)) (attributes rest : List ℕ)
      → Others (codes "Set-Cookie:") ls
      → IsValue c v
      → Free newline attributes
      → get_cookies (text ls ++ (cookie_line c v attributes ++ (b'\n' ∷ rest)))
        ≡ some (some (some (c ∷ v)))
  unfolding get_cookies each_line line_loop is_delimiter
  get_cookies-IsValue ls attributes rest others value free =
      let s : List ℕ = cookie_line c v attributes ++ (b'\n' ∷ rest) in
      let (k, fuel) = enough ls s (omega arith) in
      let taken : strtok newline s ≡ (some (cookie_line c v attributes), rest) =
        strtok-Free newline (codes "et-Cookie: " ++ (c ∷ (v ++ (b';' ∷ attributes)))) rest b'S'
          b'\n' (cookie_line-Free c v attributes value free) refl in
      rw fuel (
        line_loop-Others cookie_body (codes "Set-Cookie:") none (cookie_body-leaves none) ls
          (suc (suc (suc k))) s others
        ∙ last_cookie c v k s rest attributes value taken)

  pub read_token-IsToken :
      (jwt : Option (List ℕ)) (ls : List (List ℕ))
      → Others (codes "token") ls
      → IsToken c v
      → read_token jwt (text ls ++ token_line c v) ≡ some (some (c ∷ v))
  unfolding read_token each_line line_loop
  read_token-IsToken jwt ls others token =
      let s : List ℕ = token_line c v in
      let (k, fuel) = enough ls s (omega arith) in
      let taken : strtok newline s ≡ (some (token_line c v), []) =
        strtok-all newline (codes "\"token\":\"" ++ (c ∷ (v ++ codes "\"}"))) b'{'
          (token_line-Free c v token) in
      rw fuel (
        line_loop-Others token_body (codes "token") jwt (token_body-leaves jwt) ls
          (suc (suc (suc k))) s others
        ∙ last_token c v k s [] jwt token taken)
