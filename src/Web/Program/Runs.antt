-- ===== src/Web/Program/Runs.antt =====
-- The runs of main of Tema_3/client.c are sessions of Web/Client, and what the server gets in them is
-- authorised.
use communication_protocols.Base.{
  ℕ, ◌≡◌, refl, inl, inr, sym, subst, ◌∙◌, Bool, true, false, ◌||◌, ◌↔◌, Bool-cases, if◌then◌else◌,
  none, some, List, [], ◌∷◌, map,
}
use communication_protocols.Web.Requests.{◌>>=◌}
use communication_protocols.Web.Client.{
  Json, Command, exit, register, login, enter_library, get_books, get_book, add_book, del_book,
  logout, unknown, Client, Round, round, session,
}
use communication_protocols.Web.Transport.{System}
use communication_protocols.Web.Program.{
  Turn, Outcome, goes, hangs, dies, breaks, End, left, hung, died, broken, turn, run, main,
}
use communication_protocols.Web.Program.Turns.{TurnOutcome, turn-TurnOutcome}

abbrev pub rounds : List Turn → List Round
rounds ts = map (λ t. t.round) ts

abbrev pub answers : List Turn → List (List ℕ)
answers ts = map (λ t. t.answer) ts

abbrev pub is_exit : Command → Bool
is_exit exit = true
is_exit _ = false

abbrev has_exit : List Turn → Bool
has_exit [] = false
has_exit (t ∷ ts) = is_exit t.round.command || has_exit ts

exit_or_not :
    {A : Type 0} (c : Command) (a b : A)
    → (elim c as (λ _. A) [ exit ↦ a | _ ↦ b ]) ≡ (if is_exit c then a else b)
exit_or_not exit a b = refl
exit_or_not register a b = refl
exit_or_not login a b = refl
exit_or_not enter_library a b = refl
exit_or_not get_books a b = refl
exit_or_not get_book a b = refl
exit_or_not add_book a b = refl
exit_or_not del_book a b = refl
exit_or_not logout a b = refl
exit_or_not unknown a b = refl

module _ (json : Json) where
  session-step :
      (s : Client) (stdin answer : List ℕ) (answers : List (List ℕ)) (r : Round)
      → round json s stdin answer ≡ some r
      → session json s stdin (answer ∷ answers) ≡ (
          if is_exit r.command
          then some (r ∷ [])
          else (session json r.client r.stdin answers >>= λ rs. some (r ∷ rs)))
  unfolding session
  session-step s stdin answer answers r e =
      rw (e, session)
        (exit_or_not r.command (some (r ∷ []))
          (session json r.client r.stdin answers >>= λ rs. some (r ∷ rs)))

  module _ (junk : ℕ) where
    pub run-step :
        (s : Client) (stdin : List ℕ) (sys : System) (systems : List System) (t : Turn)
        → turn json junk s stdin sys ≡ goes t
        → run json junk s stdin (sys ∷ systems) ≡ (
            if is_exit t.round.command then (t ∷ [], left) else (
              t ∷ (run json junk t.round.client t.round.stdin systems).0,
              (run json junk t.round.client t.round.stdin systems).1,
            ))
    unfolding run
    run-step s stdin sys systems t e =
        rw (e, run)
          (exit_or_not t.round.command (t ∷ [], left)
            (
              t ∷ (run json junk t.round.client t.round.stdin systems).0,
              (run json junk t.round.client t.round.stdin systems).1,
            ))

    -- The turns are the rounds of a session on the answers, and the program is left if one is exit.
    abbrev pub IsSession : Client → List ℕ → List Turn × End → Type 0
    IsSession s stdin o =
        (session json s stdin (answers o.0) ≡ some (rounds o.0))
        × ((o.1 ≡ left) ↔ (has_exit o.0 ≡ true))

    run-IsSession :
        (systems : List System) (s : Client) (stdin : List ℕ)
        → IsSession s stdin (run json junk s stdin systems)
    unfolding run session
    run-IsSession [] s stdin = (refl, (λ e. cc, λ e. cc))
    run-IsSession (sys ∷ systems) s stdin =
        go (turn json junk s stdin sys) refl (turn-TurnOutcome json junk s stdin sys)
          (run-IsSession systems)
      where
        by :
            (o : List Turn × End)
            → run json junk s stdin (sys ∷ systems) ≡ o
            → IsSession s stdin o
            → IsSession s stdin (run json junk s stdin (sys ∷ systems))
        by o e h = subst (λ o. IsSession s stdin o) (sym e) h

        go :
            (o : Outcome)
            → turn json junk s stdin sys ≡ o
            → TurnOutcome json junk s stdin o
            → ((s' : Client) (stdin' : List ℕ)
                → IsSession s' stdin' (run json junk s' stdin' systems))
            → IsSession s stdin (run json junk s stdin (sys ∷ systems))
        go breaks e h later = by ([], broken) (rw (run, e) refl) (refl, (λ e. cc, λ e. cc))
        go (hangs t) e h later = by ([], hung t) (rw (run, e) refl) (refl, (λ e. cc, λ e. cc))
        go (dies t) e h later = by ([], died t) (rw (run, e) refl) (refl, (λ e. cc, λ e. cc))
        go (goes t) e (is_round, part) later =
            let rest = later t.round.client t.round.stdin in
            subst (λ o. IsSession s stdin o) (sym (run-step s stdin sys systems t e))
              (elim (Bool-cases (is_exit t.round.command)) [
                | inl f ↦
                    rw (IsSession, f)
                      (
                        session-step s stdin t.answer [] t.round is_round ∙ (rw f refl),
                        (λ g. rw f refl, λ g. refl),
                      )
                | inr f ↦
                    rw (IsSession, f)
                      (
                        session-step s stdin t.answer
                              (answers (run json junk t.round.client t.round.stdin systems).0)
                              t.round is_round
                            ∙ (rw (f, rest.0) refl),
                        (λ g. rw f (rest.1.0 g), λ g. rest.1.1 (rw f at g)),
                      )
              ])

    -- The turns of the program that go through are the rounds of a session on the answers that it
    -- receives, as the strings that they are, whatever the system answers; and the program stands behind
    -- exit exactly if one of these turns is exit.
    pub main-IsSession :
        (stdin : List ℕ) (systems : List System)
        → IsSession (record { cookie = none; jwt = none }) stdin (main json junk stdin systems)
    unfolding main
    main-IsSession stdin systems =
        run-IsSession systems (record { cookie = none; jwt = none }) stdin
