-- ===== src/Web/Client/Granted.antt =====
-- The cookie and the access token of Tema_3/client.c, from the answers that grant them to the requests
-- that carry them.
use communication_protocols.Base.{ℕ, ◌≡◌, refl, false, Option, none, some, List, ◌∷◌, ◌++◌, codes}
use communication_protocols.CString.{contains}
use communication_protocols.Web.Strings.{newline}
use communication_protocols.Web.Strings.Lines.{Free, Others, text}
use communication_protocols.Web.Strings.Values.{
  IsValue, IsToken, cookie_line, token_line, get_cookies-IsValue, read_token-IsToken,
}
use communication_protocols.Web.Client.{
  Json, login, enter_library, get_books, get, Client, request_of, login_answer, apply_answer,
}

-- An answer with a cookie: lines without Set-Cookie, one with it, and anything behind.
abbrev pub granting : List (List ℕ) → ℕ → (v attributes rest : List ℕ) → List ℕ
granting ls c v attributes rest = text ls ++ (cookie_line c v attributes ++ (b'\n' ∷ rest))

-- An answer with an access token behind lines without the word.
abbrev pub admitting : List (List ℕ) → ℕ → List ℕ → List ℕ
admitting ls c v = text ls ++ token_line c v

module _ (d : ℕ) (token : List ℕ) where
  pub library_admits :
      (s : Client) (ls : List (List ℕ))
      → Others (codes "token") ls
      → IsToken d token
      → apply_answer s enter_library (admitting ls d token)
        ≡ some (record s { jwt = some (d ∷ token) })
  unfolding apply_answer
  library_admits s ls others value =
      rw (read_token-IsToken d token s.jwt ls others value, apply_answer) refl

module _ (c d : ℕ) (cookie token : List ℕ) (jwt : Option (List ℕ)) where
  login_grants :
      (ls : List (List ℕ)) (attributes rest : List ℕ)
      → Others (codes "Set-Cookie:") ls
      → IsValue c cookie
      → Free newline attributes
      → contains (granting ls c cookie attributes rest) (codes "error") ≡ false
      → apply_answer
          (record { cookie = none; jwt = jwt })
          login
          (granting ls c cookie attributes rest)
        ≡ some (record { cookie = some (c ∷ cookie); jwt = jwt })
  unfolding apply_answer login_answer
  login_grants ls attributes rest others value free fine =
      rw (fine, get_cookies-IsValue c cookie ls attributes rest others value free, login_answer)
        refl

  -- A login without a cookie whose answer sets one, behind lines that set none and without the word
  -- error, and then an entry to the library whose answer gives a token, as one line of JSON behind lines
  -- without the word token, leave the client with exactly the value of the cookie up to its semicolon and
  -- the text of the token. The next get_books carries both.
  pub granted_carried :
      (json : Json) (stdin : List ℕ) (ls ls' : List (List ℕ)) (attributes rest : List ℕ)
      → Others (codes "Set-Cookie:") ls
      → IsValue c cookie
      → Free newline attributes
      → contains (granting ls c cookie attributes rest) (codes "error") ≡ false
      → Others (codes "token") ls'
      → IsToken d token
      → (s s' : Client) × (apply_answer
            (record { cookie = none; jwt = jwt })
            login
            (granting ls c cookie attributes rest)
          ≡ some s)
        × (apply_answer s enter_library (admitting ls' d token) ≡ some s')
        × (request_of json s' get_books stdin
            ≡ some (
              some
                  (get (codes "/api/v1/tema/library/books") (some (c ∷ cookie)) (some (d ∷ token))),
              stdin,
            ))
  unfolding request_of
  granted_carried json stdin ls ls' attributes rest others value free fine others' access = (
    record { cookie = some (c ∷ cookie); jwt = jwt },
    record { cookie = some (c ∷ cookie); jwt = some (d ∷ token) },
    login_grants ls attributes rest others value free fine,
    library_admits d token (record { cookie = some (c ∷ cookie); jwt = jwt }) ls' others' access,
    refl,
  )
