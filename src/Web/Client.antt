-- ===== src/Web/Client.antt =====
-- The commands of Tema_3/client.c. A round of the loop reads a command and its fields from stdin,
-- exchanges at most one request and answer with the server, and keeps the cookie and the access token
-- (`none` for NULL). `none` as a round's result is undefined behaviour: a string too long for its
-- buffer, or a read of an indeterminate one. The answer that receive_from_server returns and the JSON
-- text that parson serialises are parameters.
pub mod Carries
pub mod Session
pub mod Id
pub mod Granted
use communication_protocols.Base.{
  ℕ, zero, suc, ◌+◌, ◌-◌, Bool, true, false, ◌&&◌, Option, none, some, List, [], ◌∷◌, ◌++◌, ltb,
  ◌==◌, if◌then◌else◌, length, codes,
}
use communication_protocols.Web.Requests.{
  ◌>>=◌, compute_get_request, compute_post_request, compute_del_request,
}
use communication_protocols.CString.{same, is_prefix, contains, c_text}
use communication_protocols.Web.Strings.{get_cookies, read_token}

-- LEN, BOOKLEN and URLLEN of helpers.h
abbrev pub len : ℕ
len = 100

abbrev pub booklen : ℕ
booklen = 50

abbrev pub urllen : ℕ
urllen = 50

-- The text of the JSON object with a user name and a password, and of that with the fields of a book.
pub record Json : Type 0 where
  pub credentials : (username password : List ℕ) → List ℕ
  pub book : (title author genre publisher page_count : List ℕ) → List ℕ

-- fgets(s, n + 1, stdin): up to `n` characters, not beyond a newline.
unfoldable pub fgets : ℕ → List ℕ → List ℕ × List ℕ
fgets zero stdin = ([], stdin)
fgets (suc n) [] = ([], [])
fgets (suc n) (c ∷ stdin) =
    let rest = fgets n stdin in if c == b'\n' then (c ∷ [], stdin) else (c ∷ rest.0, rest.1)

-- What strtok(s, "\n") leaves of `s`: newlines in front stay, and the first one behind a character
-- is overwritten.
unfoldable pub up_to_newline : List ℕ → List ℕ
up_to_newline [] = []
up_to_newline (c ∷ s) = if c == b'\n' then [] else c ∷ up_to_newline s

unfoldable pub strip : List ℕ → List ℕ
unfolding up_to_newline
strip [] = []
strip (c ∷ s) = if c == b'\n' then c ∷ strip s else c ∷ up_to_newline s

-- A field in a buffer of `n` bytes that calloc or memset cleared: empty at the end of the input. It is
-- a string, which ends at a zero byte that was typed.
unfoldable pub cleared_field : ℕ → List ℕ → List ℕ × List ℕ
unfolding fgets c_text strip
cleared_field n stdin = let r = fgets (n - 1) stdin in (strip (c_text r.0), r.1)

-- A field in a buffer from malloc: indeterminate at the end of the input.
unfoldable pub field : ℕ → List ℕ → Option (List ℕ × List ℕ)
unfolding cleared_field
field n [] = none
field n (c ∷ stdin) = some (cleared_field n (c ∷ stdin))

pub data Command : Type 0 where
  exit register login enter_library get_books get_book add_book del_book logout unknown : Command

-- The chain of strncmp and strcmp.
unfoldable pub command_of : List ℕ → Command
unfolding is_prefix
command_of s =
    if is_prefix (codes "exit") s
    then exit
    else if same s (codes "register")
    then register
    else if same s (codes "login")
    then login
    else if same s (codes "enter_library")
    then enter_library
    else if same s (codes "get_books")
    then get_books
    else if same s (codes "get_book")
    then get_book
    else if same s (codes "add_book")
    then add_book
    else if same s (codes "del_book")
    then del_book
    else if same s (codes "logout")
    then logout
    else unknown

-- A request as the commands ask for it, before it is written into the buffers.
pub data Request : Type 0 where
  get : (url : List ℕ) (cookies token : Option (List ℕ)) → Request
  post : (url : List ℕ) (token : Option (List ℕ)) (body : List ℕ) → Request
  delete : (url : List ℕ) (token : Option (List ℕ)) → Request

abbrev pub host : List ℕ
host = codes "34.118.48.238"

unfoldable pub message : Request → Option (List ℕ)
message (get url cookies token) = compute_get_request host url cookies token
message (post url token body) =
    compute_post_request host url token (codes "application/json") body none
message (delete url token) = compute_del_request host url none token

pub record Client : Type 0 where
  pub cookie : Option (List ℕ)
  pub jwt : Option (List ℕ)

-- strcpy(url, "/api/v1/tema/library/books/"); strcat(url, id);
unfoldable pub book_url : List ℕ → Option (List ℕ)
book_url id =
    let url : List ℕ = codes "/api/v1/tema/library/books/" ++ id in
    if ltb (length url) urllen then some url else none

-- What a command sends, and the input that it leaves; `none` inside if nothing is sent.
module _ (json : Json) where
  unfoldable pub credentials_request : List ℕ → List ℕ → Request × List ℕ
  unfolding cleared_field
  credentials_request url stdin =
      let u = cleared_field len stdin in
      let p = cleared_field len u.1 in (post url none (json.credentials u.0 p.0), p.1)

  unfoldable pub book_request : Client → List ℕ → Option (Request × List ℕ)
  unfolding field
  book_request s stdin = do
    t ← field booklen stdin
    a ← field booklen t.1
    g ← field booklen a.1
    p ← field booklen g.1
    n ← field booklen p.1
    some (post (codes "/api/v1/tema/library/books") s.jwt (json.book t.0 a.0 g.0 p.0 n.0), n.1)

  unfoldable pub id_request : (List ℕ → Request) → List ℕ → Option (Request × List ℕ)
  unfolding field book_url
  id_request request stdin = do i ← field len stdin; url ← book_url i.0; some (request url, i.1)

  unfoldable pub request_of : Client → Command → List ℕ → Option (Option Request × List ℕ)
  unfolding credentials_request book_request id_request
  request_of s exit stdin = some (none, stdin)
  request_of s register stdin =
      let r = credentials_request (codes "/api/v1/tema/auth/register") stdin in some (some r.0, r.1)
  request_of s login stdin = elim s.cookie [
    | some _ ↦ some (none, stdin)
    | none ↦
        let r = credentials_request (codes "/api/v1/tema/auth/login") stdin in some (some r.0, r.1)
  ]
  request_of s enter_library stdin =
      some (some (get (codes "/api/v1/tema/library/access") s.cookie none), stdin)
  request_of s get_books stdin =
      some (some (get (codes "/api/v1/tema/library/books") s.cookie s.jwt), stdin)
  request_of s get_book stdin = do
    r ← id_request (λ url. get url none s.jwt) stdin
    some (some r.0, r.1)
  request_of s add_book stdin = do r ← book_request s stdin; some (some r.0, r.1)
  request_of s del_book stdin = do
    r ← id_request (λ url. delete url s.jwt) stdin
    some (some r.0, r.1)
  request_of s logout stdin =
      some (some (get (codes "/api/v1/tema/auth/logout") s.cookie none), stdin)
  request_of s unknown stdin = some (none, stdin)

-- What the answer changes. A login takes the cookie from an answer without "error"; an answer without
-- a cookie leaves it indeterminate.
unfoldable pub login_answer : Client → List ℕ → Option Client
unfolding contains get_cookies
login_answer s answer =
    if contains answer (codes "error") then some s else (elim (get_cookies answer) [
      | none ↦ none
      | some none ↦ none
      | some (some cookie) ↦ some (record s { cookie = cookie })
    ])

unfoldable pub apply_answer : Client → Command → List ℕ → Option Client
unfolding login_answer read_token
apply_answer s login answer = elim s.cookie [ some _ ↦ some s | none ↦ login_answer s answer ]
apply_answer s enter_library answer = elim (read_token s.jwt answer) [
  | none ↦ none
  | some jwt ↦ some (record s { jwt = jwt })
]
apply_answer s logout answer = some (record { cookie = none; jwt = none })
apply_answer s _ answer = some s

-- A round: the new state, the request and its text, and the input left.
pub record Round : Type 0 where
  pub client : Client
  pub command : Command
  pub sent : Option Request
  pub text : List ℕ
  pub stdin : List ℕ

unfoldable pub text_of : Option Request → Option (List ℕ)
unfolding message
text_of none = some []
text_of (some r) = message r

unfoldable pub round : Json → Client → List ℕ → List ℕ → Option Round
unfolding cleared_field command_of request_of text_of apply_answer
round json s stdin answer = do
  r ← request_of json s (command_of (cleared_field len stdin).0) (cleared_field len stdin).1
  text ← text_of r.0
  s' ← apply_answer s (command_of (cleared_field len stdin).0) answer
  some (record {
    client = s';
    command = command_of (cleared_field len stdin).0;
    sent = r.0;
    text = text;
    stdin = r.1;
  })

-- The rounds until exit, one for each answer.
unfoldable pub session : Json → Client → List ℕ → List (List ℕ) → Option (List Round)
unfolding round
session json s stdin [] = some []
session json s stdin (answer ∷ answers) = do
  r ← round json s stdin answer
  elim r.command as (λ _. Option (List Round)) [
    | exit ↦ some (r ∷ [])
    | _ ↦ do rs ← session json r.client r.stdin answers; some (r ∷ rs)
  ]
