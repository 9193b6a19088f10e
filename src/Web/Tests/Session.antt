-- ===== src/Web/Tests/Session.antt =====
-- A session of the web client of Tema_3, and its theorems at it.
use communication_protocols.Base.{
  ℕ, ◌≡◌, refl, Option, none, some, List, [], ◌∷◌, ◌++◌, codes, dec_lt, lt_wf,
}
use communication_protocols.Web.Requests.{
  compute_get_request, compute_post_request, compute_del_request, add_line, add_optional,
  compute_message, sprintf,
}
use communication_protocols.Web.Strings.{
  line_loop, each_line, cookie_body, get_cookies, token_body, read_token,
}
use communication_protocols.CString.{
  c_text, is_prefix, contains, is_delimiter, skip, span, strtok, strtok_from, decimal, decimal_acc,
}
use communication_protocols.Web.Strings.Tokens.{line_loops-end}
use communication_protocols.Web.Client.{
  Json, Client, Round, get, delete, request_of, get_book, del_book, cleared_field, fgets, strip,
  up_to_newline, field, command_of, message, book_url, credentials_request, book_request,
  id_request, login_answer, apply_answer, text_of, round, session,
}
use communication_protocols.Web.Client.Id.{book_id_fits}

-- The text of a JSON object with plain values.
abbrev pub json : Json
json = record {
  credentials =
      λ u p. codes "{\"username\":\"" ++ (u ++ (codes "\",\"password\":\"" ++ (p ++ codes "\"}")));
  book = λ t a g p n. codes "{\"title\":\"" ++ (t ++ codes "\"}");
}

abbrev pub typed : List ℕ
typed = codes "login\nann\npw\nenter_library\nget_book\n7\nlogout\nexit\n"

abbrev pub granted : List ℕ
granted = codes "HTTP/1.1 200 OK\r\nSet-Cookie: sid=abc; Path=/\r\n\r\n"

abbrev pub admitted : List ℕ
admitted = codes "HTTP/1.1 200 OK\r\n\r\n{\"token\":\"xyz\"}"

abbrev answers : List (List ℕ)
answers = granted ∷ admitted ∷ codes "{}" ∷ codes "bye" ∷ [] ∷ []

cookie_run : get_cookies granted ≡ some (some (some (codes "sid=abc")))
unfolding get_cookies each_line line_loop cookie_body contains is_prefix strtok strtok_from skip
    span is_delimiter
cookie_run = refl

token_run : read_token none admitted ≡ some (some (codes "xyz"))
unfolding read_token each_line line_loop token_body contains is_prefix strtok strtok_from skip span
    is_delimiter
token_run = refl

abbrev rounds_of : Option (List Round) → List Round
rounds_of none = []
rounds_of (some rs) = rs

abbrev rounds : List Round
rounds = rounds_of (session json (record { cookie = none; jwt = none }) typed answers)

session_run : session json (record { cookie = none; jwt = none }) typed answers ≡ some rounds
unfolding session round cleared_field fgets c_text strip up_to_newline field command_of message
    book_url credentials_request book_request id_request request_of login_answer apply_answer
    text_of get_cookies read_token each_line line_loop cookie_body token_body contains is_prefix
    strtok strtok_from skip span is_delimiter compute_get_request compute_post_request
    compute_del_request decimal decimal_acc add_line add_optional compute_message sprintf lt_wf
    dec_lt
session_run = refl

line_loops-end_example :
    ((c : Option (Option (List ℕ))) × (get_cookies granted ≡ some c))
    × ((t : Option (List ℕ)) × (read_token none granted ≡ some t))
line_loops-end_example = line_loops-end none granted

abbrev inside : Client
inside = record { cookie = some (codes "sid=abc"); jwt = some (codes "xyz") }

book_id_fits_example :
    (request_of json inside get_book (b'7' ∷ b'\n' ∷ [])
      ≡ some (some (get (codes "/api/v1/tema/library/books/7") none (some (codes "xyz"))), []))
    × (request_of json inside del_book (b'7' ∷ b'\n' ∷ [])
        ≡ some (some (delete (codes "/api/v1/tema/library/books/7") (some (codes "xyz"))), []))
unfolding cleared_field fgets c_text strip up_to_newline
book_id_fits_example = book_id_fits json inside b'7' (b'\n' ∷ [])
