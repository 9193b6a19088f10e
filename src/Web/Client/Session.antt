-- ===== src/Web/Client/Session.antt =====
-- Which requests of Tema_3/client.c carry the cookie and the access token.
use communication_protocols.Base.{
  ◌⊎◌, ℕ, ◌≡◌, refl, inl, inr, Bool, true, false, ◌&&◌, Option, none, some, List, [], ◌∷◌, arith,
}
use communication_protocols.Web.Requests.{◌>>=◌}
use communication_protocols.Web.Strings.{read_token}
use communication_protocols.Web.Client.{
  Json, Command, exit, register, login, enter_library, get_books, get_book, add_book, del_book,
  logout, unknown, Client, Round, len, cleared_field, request_of, login_answer, apply_answer,
  command_of, text_of, round, session,
}
use communication_protocols.Web.Client.Carries.{
  is_some, implies, has_cookie, has_token, bind-some, some-subst, Carries, request_of-Carries,
}

-- Whether there may be a cookie, and an access token, behind a command.
abbrev pub may_cookie : Bool → Command → Bool
may_cookie before login = true
may_cookie before logout = false
may_cookie before _ = before

abbrev pub may_token : Bool → Command → Bool
may_token before enter_library = true
may_token before logout = false
may_token before _ = before

-- A request carries the cookie only if a login came before it, and a token only if the library was
-- entered, with no logout in between.
abbrev pub authorised : (cookie token : Bool) → List Round → Bool
authorised cookie token [] = true
authorised cookie token (r ∷ rs) =
    implies (has_cookie r.sent) cookie
    && (implies (has_token r.sent) token
        && authorised (may_cookie cookie r.command) (may_token token r.command) rs)

-- What a client may have, by the commands before.
abbrev pub Within : Client → (cookie token : Bool) → Type 0
Within s cookie token =
    (implies (is_some s.cookie) cookie ≡ true) × (implies (is_some s.jwt) token ≡ true)

implies-true : (b : Bool) → implies b true ≡ true
implies-true true = refl
implies-true false = refl

login-jwt :
    (s s' : Client) (answer : List ℕ) → apply_answer s login answer ≡ some s' → s'.jwt ≡ s.jwt
unfolding apply_answer login_answer
login-jwt s s' answer e = ground arith

apply_answer-Within :
    (s s' : Client) (c : Command) (answer : List ℕ) (cookie token : Bool)
    → Within s cookie token
    → apply_answer s c answer ≡ some s'
    → Within s' (may_cookie cookie c) (may_token token c)
unfolding apply_answer
apply_answer-Within s s' exit answer cookie token h e =
    some-subst (λ x. Within x cookie token) _ s' e h
apply_answer-Within s s' register answer cookie token h e =
    some-subst (λ x. Within x cookie token) _ s' e h
apply_answer-Within s s' login answer cookie token h e =
    (implies-true (is_some s'.cookie), rw (login-jwt s s' answer e) h.1)
apply_answer-Within s s' enter_library answer cookie token h e = enter (read_token s.jwt answer) e
  where
    enter :
        (o : Option (Option (List ℕ)))
        → (elim o as (λ _. Option Client) [
          | none ↦ none
          | some jwt ↦ some (record s { jwt = jwt })
        ])
          ≡ some s'
        → Within s' cookie true
    enter none e = absurd (cc e)
    enter (some jwt) e =
        some-subst (λ x. Within x cookie true) _ s' e (h.0, implies-true (is_some jwt))
apply_answer-Within s s' get_books answer cookie token h e =
    some-subst (λ x. Within x cookie token) _ s' e h
apply_answer-Within s s' get_book answer cookie token h e =
    some-subst (λ x. Within x cookie token) _ s' e h
apply_answer-Within s s' add_book answer cookie token h e =
    some-subst (λ x. Within x cookie token) _ s' e h
apply_answer-Within s s' del_book answer cookie token h e =
    some-subst (λ x. Within x cookie token) _ s' e h
apply_answer-Within s s' logout answer cookie token h e =
    some-subst (λ x. Within x false false) _ s' e (refl, refl)
apply_answer-Within s s' unknown answer cookie token h e =
    some-subst (λ x. Within x cookie token) _ s' e h

-- What is behind a round: nothing, or the rounds of the rest.
Tail : Round → Option (List Round) → List Round → Type 0
Tail r t rs = (more : List Round) × ((more ≡ []) ⊎ (t ≡ some more)) × (rs ≡ r ∷ more)

go_on :
    (r : Round) (t : Option (List Round)) (rs : List Round)
    → (t >>= λ more. some (r ∷ more)) ≡ some rs
    → Tail r t rs
unfolding Tail
go_on r t rs e = bind-some t _ rs e λ more eq e1.
    some-subst (λ x. (m : List Round) × ((m ≡ []) ⊎ (t ≡ some m)) × (x ≡ r ∷ m)) _ rs e1
      (more, inr eq, refl)

-- A session goes on with the rest of the answers, or ends with this round.
session-Tail :
    (c : Command) (r : Round) (t : Option (List Round)) (rs : List Round)
    → (elim c as (λ _. Option (List Round)) [
      | exit ↦ some (r ∷ [])
      | _ ↦ t >>= λ rs. some (r ∷ rs)
    ])
      ≡ some rs
    → Tail r t rs
unfolding Tail
session-Tail exit r t rs e =
    some-subst (λ x. (m : List Round) × ((m ≡ []) ⊎ (t ≡ some m)) × (x ≡ r ∷ m)) _ rs e
      ([], inl refl, refl)
session-Tail register r t rs e = go_on r t rs e
session-Tail login r t rs e = go_on r t rs e
session-Tail enter_library r t rs e = go_on r t rs e
session-Tail get_books r t rs e = go_on r t rs e
session-Tail get_book r t rs e = go_on r t rs e
session-Tail add_book r t rs e = go_on r t rs e
session-Tail del_book r t rs e = go_on r t rs e
session-Tail logout r t rs e = go_on r t rs e
session-Tail unknown r t rs e = go_on r t rs e

pub implies_trans : (a b c : Bool) → implies a b ≡ true → implies b c ≡ true → implies a c ≡ true
implies_trans true true c h k = k
implies_trans true false c h k = absurd (cc h)
implies_trans false b c h k = refl

module _ (json : Json) where
  pub round-Carries :
      (s : Client) (stdin answer : List ℕ) (r : Round) (cookie token : Bool)
      → Within s cookie token
      → round json s stdin answer ≡ some r
      → Carries s r.sent × Within r.client (may_cookie cookie r.command) (may_token token r.command)
  unfolding round
  round-Carries s stdin answer r cookie token h e =
      let c : Command = command_of (cleared_field len stdin).0 in
      bind-some (request_of json s c (cleared_field len stdin).1) _ r e λ q eq e1.
        bind-some (text_of q.0) _ r e1 λ text _ e2.
          bind-some (apply_answer s c answer) _ r e2 λ s' es e3.
            some-subst
              (λ x.
                Carries s x.sent
                × Within x.client (may_cookie cookie x.command) (may_token token x.command))
              _ r e3
              (
                request_of-Carries json s c (cleared_field len stdin).1 q eq,
                apply_answer-Within s s' c answer cookie token h es,
              )

  session_from :
      (answers : List (List ℕ)) (s : Client) (stdin : List ℕ) (rs : List Round)
      (cookie token : Bool)
      → Within s cookie token
      → session json s stdin answers ≡ some rs
      → authorised cookie token rs ≡ true
  unfolding session Tail
  session_from [] s stdin rs cookie token h e =
      some-subst (λ x. authorised cookie token x ≡ true) _ rs e refl
  session_from (answer ∷ answers) s stdin rs cookie token h e =
      bind-some (round json s stdin answer) _ rs e λ r er e1.
        let (carries, within) = round-Carries s stdin answer r cookie token h er in
        let (more, end, form) =
          session-Tail r.command r (session json r.client r.stdin answers) rs e1 in
        let rest : authorised (may_cookie cookie r.command) (may_token token r.command) more
            ≡ true =
          (elim end [
            | inl empty ↦ rw empty refl
            | inr go ↦ session_from answers r.client r.stdin more _ _ within go
          ]) in
        rw
          (
            form,
            implies_trans (has_cookie r.sent) (is_some s.cookie) cookie carries.0 h.0,
            implies_trans (has_token r.sent) (is_some s.jwt) token carries.1 h.1,
          )
          rest

  -- In every session that main starts, without a cookie and a token, and that goes through, a request
  -- carries a cookie only if a login came before it, and a token only if the library was entered
  -- before it, with no logout in between.
  pub session-authorised :
      (stdin : List ℕ) (answers : List (List ℕ)) (rs : List Round)
      → session json (record { cookie = none; jwt = none }) stdin answers ≡ some rs
      → authorised false false rs ≡ true
  session-authorised stdin answers rs e =
      session_from answers (record { cookie = none; jwt = none }) stdin rs false false (refl, refl)
        e
