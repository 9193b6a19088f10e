-- ===== src/Web/Program/Silent.antt =====
-- A command of Tema_3/client.c that sends nothing leaves the client as it is.
use communication_protocols.Base.{ℕ, ◌≡◌, refl, sym, subst, true, Option, none, some, List}
use communication_protocols.Web.Client.{
  Json, Command, exit, register, login, enter_library, get_books, get_book, add_book, del_book,
  logout, unknown, Request, get, delete, id_request, book_request, Client, request_of, login_answer,
  apply_answer,
}
use communication_protocols.Web.Client.Carries.{bind-some, some-subst, is_some}

-- A command that sends nothing leaves the client as it is.
sent_nothing :
    {G : Type 0} (p : Option Request × List ℕ) (rest : List ℕ)
    → is_some p.0 ≡ true
    → some p ≡ some (none, rest)
    → G
sent_nothing p rest asks e =
    absurd (cc (some-subst (λ x. is_some x.0 ≡ true) p (none, rest) e asks))

silent_login :
    (s : Client) (o : Option (List ℕ)) (r : Request) (rest stdin stdin' answer : List ℕ)
    → s.cookie ≡ o
    → (elim o as (λ _. Option (Option Request × List ℕ)) [
      | some _ ↦ some (none, stdin)
      | none ↦ some (some r, rest)
    ])
      ≡ some (none, stdin')
    → apply_answer s login answer ≡ some s
unfolding apply_answer
silent_login s none r rest stdin stdin' answer known e = sent_nothing (some r, rest) stdin' refl e
silent_login s (some c) r rest stdin stdin' answer known e =
    subst
      (λ o.
        (elim o as (λ _. Option Client) [ some _ ↦ some s | none ↦ login_answer s answer ])
        ≡ some s)
      (sym known) refl

module _ (json : Json) where
  pub silent :
      (s : Client) (c : Command) (stdin rest answer : List ℕ)
      → request_of json s c stdin ≡ some (none, rest)
      → apply_answer s c answer ≡ some s
  unfolding request_of apply_answer
  silent s exit stdin rest answer e = refl
  silent s register stdin rest answer e = sent_nothing _ rest refl e
  silent s login stdin rest answer e = silent_login s s.cookie _ _ stdin rest answer refl e
  silent s enter_library stdin rest answer e = sent_nothing _ rest refl e
  silent s get_books stdin rest answer e = sent_nothing _ rest refl e
  silent s get_book stdin rest answer e =
      bind-some (id_request json (λ url. get url none s.jwt) stdin) _ _ e
        λ q _ f. sent_nothing _ rest refl f
  silent s add_book stdin rest answer e =
      bind-some (book_request json s stdin) _ _ e λ q _ f. sent_nothing _ rest refl f
  silent s del_book stdin rest answer e =
      bind-some (id_request json (λ url. delete url s.jwt) stdin) _ _ e
        λ q _ f. sent_nothing _ rest refl f
  silent s logout stdin rest answer e = sent_nothing _ rest refl e
  silent s unknown stdin rest answer e = refl
