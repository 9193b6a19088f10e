-- ===== src/Web/Program/Authorised.antt =====
-- What the server gets from main of Tema_3/client.c is authorised.
use communication_protocols.Base.{
  ℕ, ◌≡◌, ◌⊎◌, refl, inl, inr, sym, subst, Bool, true, false, Bool-cases, Option, none, some, List,
  [], ◌∷◌, ◌++◌,
}
use communication_protocols.Web.Client.{
  Json, Command, Request, Client, Round, len, cleared_field, command_of, request_of, text_of,
  apply_answer, round,
}
use communication_protocols.Web.Requests.Texts.{written, message-written}
use communication_protocols.Web.Client.Carries.{
  is_some, has_cookie, has_token, Carries, request_of-Carries, bind-some, some-subst,
}
use communication_protocols.Web.Client.Session.{
  authorised, may_cookie, may_token, Within, implies_trans, round-Carries,
}
use communication_protocols.Web.Transport.{System}
use communication_protocols.Web.Transport.Sending.{IsPrefix}
use communication_protocols.Web.Program.{
  Turn, Outcome, goes, hangs, dies, breaks, End, left, running, hung, died, broken, turn, run, main,
}
use communication_protocols.Web.Program.Turns.{
  Pending, TurnOutcome, turn-TurnOutcome, typed_command, behind,
}
use communication_protocols.Web.Program.Runs.{rounds, is_exit, run-step}

-- All turns of a run, the one in which it stands included.
abbrev pub turns : List Turn × End → List Turn
turns (ts, left) = ts
turns (ts, running) = ts
turns (ts, hung t) = ts ++ (t ∷ [])
turns (ts, died t) = ts ++ (t ∷ [])
turns (ts, broken) = ts

-- What the server has got in each turn is a prefix of what is written for its request.
abbrev pub AllParts : List Turn → Type 0
AllParts [] = Unit {0}
AllParts (t ∷ ts) = IsPrefix t.delivered (written t.round.sent) × AllParts ts

text_of-written :
    (sent : Option Request) (text : List ℕ) → text_of sent ≡ some text → text ≡ written sent
unfolding text_of
text_of-written none text e = some-subst (λ t. t ≡ []) _ text e refl
text_of-written (some r) text e = message-written r text e

round-written :
    (json : Json) (s : Client) (stdin answer : List ℕ) (r : Round)
    → round json s stdin answer ≡ some r
    → r.text ≡ written r.sent
unfolding round
round-written json s stdin answer r e =
    let c : Command = command_of (cleared_field len stdin).0 in
    bind-some (request_of json s c (cleared_field len stdin).1) _ r e λ q eq e1.
      bind-some (text_of q.0) _ r e1 λ text et e2.
        bind-some (apply_answer s c answer) _ r e2
          λ s' es e3. some-subst (λ x. x.text ≡ written x.sent) _ r e3 (text_of-written q.0 text et)

prefix_of-written :
    (delivered text : List ℕ) (sent : Option Request)
    → IsPrefix delivered text
    → (text ≡ written sent) ⊎ (text ≡ [])
    → IsPrefix delivered (written sent)
prefix_of-written delivered text sent part (inl e) = subst (IsPrefix delivered) e part
prefix_of-written [] text sent part (inr e) = (written sent, refl)
prefix_of-written (c ∷ delivered) text sent (rest, split) (inr e) = absurd (cc (split, e))

turns-cons : (t : Turn) (o : List Turn × End) → turns (t ∷ o.0, o.1) ≡ t ∷ turns o
turns-cons t (ts, left) = refl
turns-cons t (ts, running) = refl
turns-cons t (ts, hung u) = refl
turns-cons t (ts, died u) = refl
turns-cons t (ts, broken) = refl

may_send :
    (s : Client) (r : Round) (rs : List Round) (cookie token : Bool)
    → Within s cookie token
    → Carries s r.sent
    → authorised (may_cookie cookie r.command) (may_token token r.command) rs ≡ true
    → authorised cookie token (r ∷ rs) ≡ true
may_send s r rs cookie token within carries rest =
    rw
      (
        implies_trans (has_cookie r.sent) (is_some s.cookie) cookie carries.0 within.0,
        implies_trans (has_token r.sent) (is_some s.jwt) token carries.1 within.1,
      )
      rest

module _ (json : Json) (junk : ℕ) where
  abbrev pub IsAuthorised : (cookie token : Bool) → List Turn → Type 0
  IsAuthorised cookie token ts = (authorised cookie token (rounds ts) ≡ true) × AllParts ts

  Pending-IsAuthorised :
      (s : Client) (stdin : List ℕ) (t : Turn) (cookie token : Bool)
      → Within s cookie token
      → Pending json junk s stdin t
      → IsAuthorised cookie token (t ∷ [])
  Pending-IsAuthorised s stdin t cookie token within pending = (
    may_send s t.round [] cookie token within
        (request_of-Carries json s (typed_command json junk s stdin) (behind json junk s stdin)
          (t.round.sent, t.round.stdin) pending.request)
        refl,
    (
      prefix_of-written t.delivered t.round.text t.round.sent pending.part (elim pending.text [
        | inl e ↦ inl (text_of-written t.round.sent t.round.text e)
        | inr e ↦ inr e
      ]),
      tt,
    ),
  )

  run-IsAuthorised :
      (systems : List System) (s : Client) (stdin : List ℕ) (cookie token : Bool)
      → Within s cookie token
      → IsAuthorised cookie token (turns (run json junk s stdin systems))
  unfolding run
  run-IsAuthorised [] s stdin cookie token within = (refl, tt)
  run-IsAuthorised (sys ∷ systems) s stdin cookie token within =
      go (turn json junk s stdin sys) refl (turn-TurnOutcome json junk s stdin sys)
        (run-IsAuthorised systems)
    where
      by :
          (o : List Turn × End)
          → run json junk s stdin (sys ∷ systems) ≡ o
          → IsAuthorised cookie token (turns o)
          → IsAuthorised cookie token (turns (run json junk s stdin (sys ∷ systems)))
      by o e h = subst (λ o. IsAuthorised cookie token (turns o)) (sym e) h

      go :
          (o : Outcome)
          → turn json junk s stdin sys ≡ o
          → TurnOutcome json junk s stdin o
          → ((s' : Client) (stdin' : List ℕ) (cookie' token' : Bool)
              → Within s' cookie' token'
              → IsAuthorised cookie' token' (turns (run json junk s' stdin' systems)))
          → IsAuthorised cookie token (turns (run json junk s stdin (sys ∷ systems)))
      go breaks e h later = by ([], broken) (rw (run, e) refl) (refl, tt)
      go (hangs t) e h later =
          by ([], hung t) (rw (run, e) refl) (Pending-IsAuthorised s stdin t cookie token within h)
      go (dies t) e h later =
          by ([], died t) (rw (run, e) refl) (Pending-IsAuthorised s stdin t cookie token within h)
      go (goes t) e (is_round, cut) later =
          let part : IsPrefix t.delivered (written t.round.sent) =
            prefix_of-written t.delivered t.round.text t.round.sent cut
              (inl (round-written json s stdin t.answer t.round is_round)) in
          let (carries, within') =
            round-Carries json s stdin t.answer t.round cookie token within is_round in
          let rest : IsAuthorised (may_cookie cookie t.round.command)
              (may_token token t.round.command)
              (turns (run json junk t.round.client t.round.stdin systems)) =
            later t.round.client t.round.stdin _ _ within' in
          subst (λ o. IsAuthorised cookie token (turns o))
            (sym (run-step json junk s stdin sys systems t e))
            (elim (Bool-cases (is_exit t.round.command)) [
              | inl f ↦
                  rw (IsAuthorised, f)
                    (may_send s t.round [] cookie token within carries refl, (part, tt))
              | inr f ↦
                  rw (IsAuthorised, f)
                    (subst (IsAuthorised cookie token)
                      (sym (turns-cons t (run json junk t.round.client t.round.stdin systems)))
                      (
                        may_send s t.round
                            (rounds (turns (run json junk t.round.client t.round.stdin systems)))
                            cookie token within carries rest.0,
                        (part, rest.1),
                      ))
            ])

  -- Whatever is typed and whatever the system answers: what the server gets in a turn of the program is
  -- a prefix of the lines of a request, among them a Cookie line only if it carries a cookie and an
  -- Authorization line only if it carries a token; and it carries a cookie only if a login came before
  -- it, and a token only if the library was entered before it, with no logout in between. So it is also
  -- for the turn in which the program waits or leaves by `error`; one with undefined behaviour is left
  -- out.
  pub main-IsAuthorised :
      (stdin : List ℕ) (systems : List System)
      → IsAuthorised false false (turns (main json junk stdin systems))
  unfolding main
  main-IsAuthorised stdin systems =
      run-IsAuthorised systems (record { cookie = none; jwt = none }) stdin false false (refl, refl)
