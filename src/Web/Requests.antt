-- ===== src/Web/Requests.antt =====
-- The HTTP requests of Tema_3/requests.c, and compute_message of Tema_3/helpers.c. A string is the
-- list of its characters, none of them 0. `line` and `message` are the buffers of LINELEN and BUFLEN
-- bytes from calloc: a string that does not fit with its terminator is written behind them, a fault,
-- `none`. A NULL cookie or token is `none`.
pub mod Lines
pub mod Texts
use communication_protocols.Base.{
  ℕ, ◌+◌, ◌/◌, ◌%◌, ◌<◌, Option, none, some, List, [], ◌∷◌, ◌++◌, arith, ltb, if◌then◌else◌, Acc,
  dite, dec_lt, lt_wf, length, codes,
}
use communication_protocols.CString.{decimal}

abbrev pub buflen : ℕ
buflen = 4096

abbrev pub linelen : ℕ
linelen = 1000

abbrev pub crlf : List ℕ
crlf = 13 ∷ 10 ∷ []

infixl 5 ◌>>=◌
abbrev pub ◌>>=◌ : {A B : Type 0} → Option A → (A → Option B) → Option B
none >>= f = none
some a >>= f = f a

-- strcat(message, line); strcat(message, "\r\n");
unfoldable pub compute_message : List ℕ → List ℕ → Option (List ℕ)
compute_message message line =
    if ltb (length message + length line + 2) buflen then some (message ++ (line ++ crlf)) else none

-- sprintf(line, …)
unfoldable pub sprintf : List ℕ → Option (List ℕ)
sprintf text = if ltb (length text) linelen then some text else none

-- A line that is formatted into `line` and added to the message.
unfoldable pub add_line : List ℕ → List ℕ → Option (List ℕ)
unfolding compute_message sprintf
add_line message text = do line ← sprintf text; compute_message message line

-- An optional line: `if (cookies != NULL)`, `if (token != NULL)`.
unfoldable pub add_optional : List ℕ → (List ℕ → List ℕ) → Option (List ℕ) → Option (List ℕ)
unfolding add_line
add_optional message format none = some message
add_optional message format (some value) = add_line message (format value)

abbrev pub start_line : List ℕ → List ℕ → List ℕ
start_line method url = method ++ (url ++ codes " HTTP/1.1")

abbrev pub host_line : List ℕ → List ℕ
host_line host = codes "Host: " ++ host

abbrev pub cookie_line : List ℕ → List ℕ
cookie_line cookies = codes "Cookie: " ++ (cookies ++ codes "; ")

abbrev pub token_line : List ℕ → List ℕ
token_line token = codes "Authorization: Bearer " ++ token

abbrev pub type_line : List ℕ → List ℕ
type_line content_type = codes "Content-Type: " ++ content_type

abbrev pub length_line : List ℕ → List ℕ
length_line body = codes "Content-Length: " ++ decimal (length body)

unfoldable pub compute_get_request :
    (host url : List ℕ) (cookies token : Option (List ℕ)) → Option (List ℕ)
unfolding add_line add_optional
compute_get_request host url cookies token = do
  message ← add_line [] (start_line (codes "GET ") url)
  message ← add_line message (host_line host)
  message ← add_optional message cookie_line cookies
  message ← add_optional message token_line token
  message ← compute_message message []
  some message

unfoldable pub compute_post_request :
    (host url : List ℕ) (token : Option (List ℕ)) (content_type body : List ℕ)
    (cookies : Option (List ℕ))
    → Option (List ℕ)
unfolding add_line add_optional
compute_post_request host url token content_type body cookies = do
  message ← add_line [] (start_line (codes "POST ") url)
  message ← add_line message (host_line host)
  message ← add_line message (type_line content_type)
  message ← add_line message (length_line body)
  message ← add_optional message cookie_line cookies
  message ← add_optional message token_line token
  message ← compute_message message []
  message ← compute_message message body
  some message

unfoldable pub compute_del_request :
    (host url : List ℕ) (cookies token : Option (List ℕ)) → Option (List ℕ)
unfolding add_line add_optional
compute_del_request host url cookies token = do
  message ← add_line [] (start_line (codes "DELETE ") url)
  message ← add_line message (host_line host)
  message ← add_optional message cookie_line cookies
  message ← add_optional message token_line token
  message ← compute_message message []
  some message
