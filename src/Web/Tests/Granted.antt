-- ===== src/Web/Tests/Granted.antt =====
-- A login and an entry to the library, and the cookie and the token that they give (Tema_3/client.c).
use communication_protocols.Base.{ℕ, ◌≡◌, refl, false, none, some, List, [], ◌∷◌, codes}
use communication_protocols.CString.{is_prefix, contains, is_delimiter}
use communication_protocols.Web.Strings.{newline}
use communication_protocols.Web.Strings.Lines.{Free, all_free-Free, IsOther}
use communication_protocols.Web.Strings.Values.{IsValue, IsToken}
use communication_protocols.Web.Client.{
  Client, login, enter_library, get_books, get, request_of, apply_answer,
}
use communication_protocols.Web.Client.Granted.{granting, admitting, granted_carried}
use communication_protocols.Web.Tests.Session.{json}

abbrev status : List ℕ
status = codes "HTTP/1.1 200 OK\r"

module _ (word : List ℕ) (without : contains status word ≡ false) where
  status-IsOther : IsOther word status
  unfolding is_delimiter
  status-IsOther = record {
    first = b'H';
    others = codes "TTP/1.1 200 OK\r";
    form = refl;
    free = all_free-Free newline status refl;
    without = without;
  }

value : IsValue b's' (codes "id=abc")
unfolding is_delimiter
value = record {
  one_line = all_free-Free newline (codes "sid=abc") refl;
  no_semicolon = all_free-Free (codes ";") (codes "sid=abc") refl;
  no_space = all_free-Free (codes " ") (codes "sid=abc") refl;
}

access : IsToken b'x' (codes "yz")
unfolding is_delimiter
access = record {
  one_line = all_free-Free newline (codes "xyz") refl;
  no_quote = all_free-Free (codes "\"") (codes "xyz") refl;
}

no_set_cookie : contains status (codes "Set-Cookie:") ≡ false
unfolding contains is_prefix
no_set_cookie = refl

no_token : contains status (codes "token") ≡ false
unfolding contains is_prefix
no_token = refl

abbrev granted : List ℕ
granted = granting (status ∷ []) b's' (codes "id=abc") (codes " Path=/\r") (codes "\r\n")

no_error : contains granted (codes "error") ≡ false
unfolding contains is_prefix
no_error = refl

path_line : Free newline (codes " Path=/\r")
unfolding is_delimiter
path_line = all_free-Free newline (codes " Path=/\r") refl

granted_carried_example :
    (s s' : Client) × (apply_answer (record { cookie = none; jwt = none }) login granted ≡ some s)
    × (apply_answer s enter_library (admitting (status ∷ []) b'x' (codes "yz")) ≡ some s')
    × (request_of json s' get_books []
        ≡ some (
          some (
              get
                (codes "/api/v1/tema/library/books")
                (some (codes "sid=abc"))
                (some (codes "xyz"))),
          [],
        ))
granted_carried_example =
    granted_carried b's' b'x' (codes "id=abc") (codes "yz") none json [] (status ∷ []) (status ∷ [])
      (codes " Path=/\r") (codes "\r\n") (status-IsOther (codes "Set-Cookie:") no_set_cookie, tt)
      value path_line no_error (status-IsOther (codes "token") no_token, tt) access
