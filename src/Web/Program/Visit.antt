-- ===== src/Web/Program/Visit.antt =====
-- A visit of the library with Tema_3/client.c, from what is typed to what the server gets and what is
-- printed.
use communication_protocols.Base.{
  ℕ, ◌<◌, ◌≡◌, refl, ap, ◌∙◌, Option, none, some, List, ◌∷◌, ◌++◌, append_assoc, arith, length,
  length-append, codes,
}
use communication_protocols.CString.{NoZero, is_prefix, c_text}
use communication_protocols.Web.Client.{
  Json, Client, enter_library, get_books, get, request_of, cleared_field, fgets, strip,
  up_to_newline, command_of, message, apply_answer,
}
use communication_protocols.Web.Requests.Texts.{message-fits}
use communication_protocols.Web.Client.Granted.{admitting, library_admits}
use communication_protocols.Web.Strings.Lines.{Others}
use communication_protocols.Web.Strings.Values.{IsToken}
use communication_protocols.Web.Transport.{System}
use communication_protocols.Web.Transport.Serves.{Serves}
use communication_protocols.Web.Program.{
  Turn, End, goes, turn_of, turn, run, prompt, logging_out, shown,
}
use communication_protocols.Web.Program.Answered.{turn_answered}
use communication_protocols.Web.Program.Runs.{run-step}

abbrev pub access_text : List ℕ → List ℕ
access_text cookie =
    codes "GET /api/v1/tema/library/access HTTP/1.1\r\nHost: 34.118.48.238\r\nCookie: "
    ++ (cookie ++ codes "; \r\n\r\n")

abbrev pub books_text : (cookie token : List ℕ) → List ℕ
books_text cookie token =
    codes "GET /api/v1/tema/library/books HTTP/1.1\r\nHost: 34.118.48.238\r\nCookie: "
    ++ (cookie ++ (codes "; \r\nAuthorization: Bearer " ++ (token ++ codes "\r\n\r\n")))

module _ (json : Json) (junk : ℕ) (cookie : List ℕ) (short : length cookie < 900) where
  access_fits :
      message (get (codes "/api/v1/tema/library/access") (some cookie) none)
      ≡ some (access_text cookie)
  access_fits =
      message-fits (get (codes "/api/v1/tema/library/access") (some cookie) none) (
        ground (
          arith,
          length-append cookie (codes "; "),
          length-append (cookie ++ codes "; ") (codes "\r\n\r\n"),
        ))
      ∙ ap
          (λ (l : List ℕ). some (
            codes "GET /api/v1/tema/library/access HTTP/1.1\r\nHost: 34.118.48.238\r\nCookie: "
            ++ l))
          (append_assoc cookie (codes "; ") (codes "\r\n\r\n"))

  books_fits :
      (token : List ℕ)
      → length token < 900
      → message (get (codes "/api/v1/tema/library/books") (some cookie) (some token))
        ≡ some (books_text cookie token)
  books_fits token short' =
      message-fits (get (codes "/api/v1/tema/library/books") (some cookie) (some token)) (
        ground (
          arith,
          length-append cookie (codes "; "),
          length-append (cookie ++ codes "; ")
              (codes "\r\nAuthorization: Bearer " ++ (token ++ codes "\r\n\r\n")),
          length-append token (codes "\r\n\r\n"),
        ))
      ∙ ap
          (λ (l : List ℕ). some (
            codes "GET /api/v1/tema/library/books HTTP/1.1\r\nHost: 34.118.48.238\r\nCookie: "
            ++ l))
          (append_assoc cookie (codes "; ")
            (codes "\r\nAuthorization: Bearer " ++ (token ++ codes "\r\n\r\n")))

  -- The turn of enter_library that leaves `s`, and that of get_books.
  abbrev entering : Client → (rest answer : List ℕ) → Turn
  entering s rest answer =
      turn_of s enter_library (some (get (codes "/api/v1/tema/library/access") (some cookie) none))
        (access_text cookie) rest answer (access_text cookie) (answer ++ codes "\n\n")

  abbrev reading : (token rest answer : List ℕ) → Turn
  reading token rest answer =
      turn_of (record { cookie = some cookie; jwt = some token }) get_books
        (some (get (codes "/api/v1/tema/library/books") (some cookie) (some token)))
        (books_text cookie token) rest answer (books_text cookie token)
        (codes "\n" ++ (answer ++ codes "\n\n"))

  enter_turn :
      (s s' : Client) (rest head body : List ℕ) (sys : System)
      → s.cookie ≡ some cookie
      → Serves sys (access_text cookie) head body
      → NoZero (head ++ body)
      → apply_answer s enter_library (head ++ body) ≡ some s'
      → turn json junk s (codes "enter_library\n" ++ rest) sys
        ≡ goes (entering s' rest (head ++ body))
  unfolding cleared_field fgets c_text strip up_to_newline command_of is_prefix prompt logging_out
      shown request_of
  enter_turn s s' rest head body sys known serves clean applied =
      turn_answered json junk s s' (codes "enter_library\n" ++ rest) rest sys
        (get (codes "/api/v1/tema/library/access") (some cookie) none) (access_text cookie) head
        body (rw known refl) access_fits serves clean applied

  books_turn :
      (token rest head body : List ℕ) (sys : System)
      → length token < 900
      → Serves sys (books_text cookie token) head body
      → NoZero (head ++ body)
      → turn json junk
          (record { cookie = some cookie; jwt = some token })
          (codes "get_books\n" ++ rest)
          sys
        ≡ goes (reading token rest (head ++ body))
  unfolding cleared_field fgets c_text strip up_to_newline command_of is_prefix prompt logging_out
      shown request_of apply_answer
  books_turn token rest head body sys short' serves clean =
      turn_answered json junk (record { cookie = some cookie; jwt = some token })
        (record { cookie = some cookie; jwt = some token }) (codes "get_books\n" ++ rest) rest sys
        (get (codes "/api/v1/tema/library/books") (some cookie) (some token))
        (books_text cookie token) head body refl (books_fits token short') serves clean refl

  -- A client that is logged in types enter_library and get_books. The system opens both connections,
  -- takes the texts, and gives an HTTP answer with a length and without a zero byte to each, in writes
  -- and reads of any sizes; the first answer ends in a line of JSON with a token, behind lines without
  -- the word token. Cookie and token have less than 900 characters. Then both turns go through: the
  -- server gets these two requests, the second with the token that it gave in the first answer, the
  -- two answers are printed whole, and the program reads on behind the commands with the cookie and
  -- this token.
  pub books_answered :
      (jwt : Option (List ℕ)) (d : ℕ) (token rest : List ℕ) (ls : List (List ℕ))
      (head body head' body' : List ℕ) (sys sys' : System) (systems : List System)
      → length (d ∷ token) < 900
      → Serves sys (access_text cookie) head body
      → NoZero (head ++ body)
      → head ++ body ≡ admitting ls d token
      → Others (codes "token") ls
      → IsToken d token
      → Serves sys' (books_text cookie (d ∷ token)) head' body'
      → NoZero (head' ++ body')
      → (t t' : Turn) × (run json junk
            (record { cookie = some cookie; jwt = jwt })
            (codes "enter_library\nget_books\n" ++ rest)
            (sys ∷ sys' ∷ systems)
          ≡ (
            t
                ∷ t'
                ∷ (run json junk
                    (record { cookie = some cookie; jwt = some (d ∷ token) })
                    rest
                    systems).0,
            (run json junk
                (record { cookie = some cookie; jwt = some (d ∷ token) })
                rest
                systems).1,
          ))
        × (t.delivered ≡ access_text cookie)
        × (t.printed ≡ (head ++ body) ++ codes "\n\n")
        × (t'.delivered ≡ books_text cookie (d ∷ token))
        × (t'.printed ≡ codes "\n" ++ ((head' ++ body') ++ codes "\n\n"))
  books_answered jwt d token rest ls head body head' body' sys sys' systems short' serves clean
        admits others value serves' clean' =
      let s : Client = record { cookie = some cookie; jwt = jwt } in
      let s' : Client = record { cookie = some cookie; jwt = some (d ∷ token) } in
      let read : List ℕ = codes "get_books\n" ++ rest in
      let t : Turn = entering s' read (head ++ body) in
      let t' : Turn = reading (d ∷ token) rest (head' ++ body') in
      let first : turn json junk s (codes "enter_library\n" ++ read) sys ≡ goes t =
        enter_turn s s' read head body sys refl serves clean
          (rw admits (library_admits d token s ls others value)) in
      let second : turn json junk s' read sys' ≡ goes t' =
        books_turn (d ∷ token) rest head' body' sys' short' serves' clean' in
      let later : run json junk s' read (sys' ∷ systems)
          ≡ (t' ∷ (run json junk s' rest systems).0, (run json junk s' rest systems).1) =
        run-step json junk s' read sys' systems t' second in
      (
        t,
        t',
        run-step json junk s (codes "enter_library\n" ++ read) sys (sys' ∷ systems) t first
            ∙ ap (λ (o : List Turn × End). (t ∷ o.0, o.1)) later,
        refl,
        refl,
        refl,
        refl,
      )
