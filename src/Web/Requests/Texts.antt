-- ===== src/Web/Requests/Texts.antt =====
-- The text of each request of Tema_3/client.c, as RFC 9112 lays a message out.
use communication_protocols.Base.{
  ℕ, ◌≡◌, refl, sym, ◌∙◌, inl, inr, ◌&&◌, Bool-cases, Option, none, some, List, [], true, ltb,
  length, codes,
}
use communication_protocols.Web.Client.{Request, get, post, delete, message}
use communication_protocols.Web.Client.Carries.{some-subst}
use communication_protocols.Web.Requests.Lines.{
  Line, render, all_short, message_of, bare_lines, post_lines, compute_get_request_lem,
  compute_post_request_lem, compute_del_request_lem,
}

-- The lines of a request: a Cookie line and an Authorization line only if it carries one.
abbrev pub lines_of : Request → List Line
lines_of (get url cookies token) =
    bare_lines (codes "GET ") (codes "34.118.48.238") url cookies token
lines_of (post url token body) =
    post_lines (codes "34.118.48.238") url token (codes "application/json") body none
lines_of (delete url token) = bare_lines (codes "DELETE ") (codes "34.118.48.238") url none token

-- What is written for a request, or for none.
abbrev pub written : Option Request → List ℕ
written none = []
written (some r) = render (lines_of r)

pub message_lem : (r : Request) → message r ≡ message_of (lines_of r)
unfolding message
message_lem (get url cookies token) =
    compute_get_request_lem (codes "34.118.48.238") url cookies token
message_lem (post url token body) =
    compute_post_request_lem (codes "34.118.48.238") url token (codes "application/json") body none
message_lem (delete url token) = compute_del_request_lem (codes "34.118.48.238") url none token

message_of-render : (ls : List Line) (text : List ℕ) → message_of ls ≡ some text → text ≡ render ls
message_of-render ls text e = elim (Bool-cases (all_short ls && ltb (length (render ls)) 4096)) [
  | inl fits ↦ some-subst (λ t. t ≡ render ls) _ text (sym (rw fits refl) ∙ e) refl
  | inr full ↦ absurd (cc (rw full at e))
]

pub message-fits :
    (r : Request)
    → (all_short (lines_of r) && ltb (length (render (lines_of r))) 4096) ≡ true
    → message r ≡ some (render (lines_of r))
message-fits r fits = message_lem r ∙ rw fits refl

-- The text of a request, if it fits the buffers, is what is written for it.
pub message-written :
    (r : Request) (text : List ℕ) → message r ≡ some text → text ≡ written (some r)
message-written r text e = message_of-render (lines_of r) text (sym (message_lem r) ∙ e)
