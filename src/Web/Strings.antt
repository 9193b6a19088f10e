-- ===== src/Web/Strings.antt =====
-- The string handling of the web client of Tema_3: strstr and strtok as the C library documents them,
-- get_cookies of helpers.c, and the reading of the access token in client.c. A C string is the list
-- of its characters up to its terminator. strtok keeps a pointer between its calls: `saved` is the
-- string it points to.
pub mod Tokens
pub mod Lines
pub mod Values
use communication_protocols.Base.{
  ℕ, zero, suc, ◌+◌, Bool, true, false, ◌&&◌, ◌||◌, Option, none, some, List, [], ◌∷◌, ◌==◌,
  if◌then◌else◌, length, codes,
}
use communication_protocols.CString.{
  is_prefix, contains, is_delimiter, skip, span, strtok, strtok_from,
}

abbrev pub newline : List ℕ
newline = codes "\n"

-- while (token != NULL) { body; token = strtok(NULL, "\n"); } where `body` gives the new value and
-- the saved string.
module _ {A : Type 0} (body : A → List ℕ → List ℕ → A × List ℕ) where
  unfoldable pub line_loop : ℕ → A → Option (List ℕ) → List ℕ → Option A
  line_loop zero a token saved = none
  line_loop (suc fuel) a none saved = some a
  line_loop (suc fuel) a (some token) saved =
      let r : A × List ℕ = body a token saved in
      let t : Option (List ℕ) × List ℕ = strtok newline r.1 in line_loop fuel r.0 t.0 t.1

  unfoldable pub each_line : A → List ℕ → Option A
  each_line a response =
      let t : Option (List ℕ) × List ℕ = strtok newline response in
      line_loop (length response + 1) a t.0 t.1

-- cookie = strtok(token, ";"); cookie = strtok(cookie, ":"); cookie = strtok(NULL, " ");
-- The local `cookie` is indeterminate, `none`, before it is set.
unfoldable pub cookie_body :
    Option (Option (List ℕ)) → List ℕ → List ℕ → Option (Option (List ℕ)) × List ℕ
cookie_body cookie token saved =
    let a : Option (List ℕ) × List ℕ = strtok (codes ";") token in
    let b : Option (List ℕ) × List ℕ = strtok_from (codes ":") a.0 a.1 in
    let c : Option (List ℕ) × List ℕ = strtok (codes " ") b.1 in
    if contains token (codes "Set-Cookie:") then (some c.0, c.1) else (cookie, saved)

unfoldable pub get_cookies : List ℕ → Option (Option (Option (List ℕ)))
get_cookies response = each_line cookie_body none response

-- jwt = strtok(token, ":"); jwt = strtok(NULL, "\"");
unfoldable pub token_body : Option (List ℕ) → List ℕ → List ℕ → Option (List ℕ) × List ℕ
token_body jwt token saved =
    let a : Option (List ℕ) × List ℕ = strtok (codes ":") token in
    let b : Option (List ℕ) × List ℕ = strtok (codes "\"") a.1 in
    if contains token (codes "token") then (b.0, b.1) else (jwt, saved)

unfoldable pub read_token : Option (List ℕ) → List ℕ → Option (Option (List ℕ))
read_token jwt response = each_line token_body jwt response
