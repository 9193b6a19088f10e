-- ===== src/Web/Program/Turns.antt =====
-- A turn of main of Tema_3/client.c is a round of Web/Client on the answer of the server.
use communication_protocols.Base.{
  ℕ, ◌≡◌, ◌⊎◌, refl, inl, inr, Bool-cases, Option, none, some, Option-cases, List, [], ◌++◌,
}
use communication_protocols.CString.{c_text}
use communication_protocols.Web.Client.{
  Json, Command, Request, Client, len, cleared_field, command_of, request_of, message, text_of,
  apply_answer, round,
}
use communication_protocols.Web.Transport.{
  System, Answer, returned, waits, exits, faults, open_connection, exchange,
}
use communication_protocols.Web.Transport.Sending.{IsPrefix}
use communication_protocols.Web.Transport.Exchange.{exchange-IsPrefix}
use communication_protocols.Web.Program.{
  prompt, logging_out, shown, opens_first, Turn, Outcome, goes, hangs, dies, breaks, turn_of, talk,
  connect_and_talk, turn,
}
use communication_protocols.Web.Program.Silent.{silent}

module _ (json : Json) (junk : ℕ) (s : Client) (stdin : List ℕ) where
  abbrev pub typed_command : Command
  typed_command = command_of (cleared_field len stdin).0

  abbrev pub behind : List ℕ
  behind = (cleared_field len stdin).1

  -- A turn that does not end: its request is that of the command, and the server has got a part of
  -- its text, or nothing before there is one.
  pub record Pending (t : Turn) : Type 0 where
    pub command : t.round.command ≡ typed_command
    pub request : request_of json s typed_command behind ≡ some (t.round.sent, t.round.stdin)
    pub text : (text_of t.round.sent ≡ some t.round.text) ⊎ (t.round.text ≡ [])
    pub part : IsPrefix t.delivered t.round.text

  -- What a turn may be.
  abbrev pub TurnOutcome : Outcome → Type 0
  TurnOutcome (goes t) =
      (round json s stdin t.answer ≡ some t.round) × IsPrefix t.delivered t.round.text
  TurnOutcome (hangs t) = Pending t
  TurnOutcome (dies t) = Pending t
  TurnOutcome breaks =
      ((answer : List ℕ) × (round json s stdin answer ≡ none))
      ⊎ ((sys : System) × (text : List ℕ) × ((exchange junk sys text).1 ≡ faults))

  round_of :
      (sent : Option Request) (rest text answer : List ℕ) (s' : Client)
      → request_of json s typed_command behind ≡ some (sent, rest)
      → text_of sent ≡ some text
      → apply_answer s typed_command answer ≡ some s'
      → round json s stdin answer
        ≡ some (record {
          client = s';
          command = typed_command;
          sent = sent;
          text = text;
          stdin = rest;
        })
  unfolding round
  round_of sent rest text answer s' e f g = rw (e, f, g, round) refl

  no_request :
      request_of json s typed_command behind ≡ none
      → (answer : List ℕ) → round json s stdin answer ≡ none
  unfolding round
  no_request e answer = rw (e, round) refl

  no_text :
      (sent : Option Request) (rest : List ℕ)
      → request_of json s typed_command behind ≡ some (sent, rest)
      → text_of sent ≡ none
      → (answer : List ℕ) → round json s stdin answer ≡ none
  unfolding round
  no_text sent rest e f answer = rw (e, f, round) refl

  no_state :
      (sent : Option Request) (rest text answer : List ℕ)
      → request_of json s typed_command behind ≡ some (sent, rest)
      → text_of sent ≡ some text
      → apply_answer s typed_command answer ≡ none
      → round json s stdin answer ≡ none
  unfolding round
  no_state sent rest text answer e f g = rw (e, f, g, round) refl

  module _ (r : Request) (rest : List ℕ) (sys : System)
      (asks : request_of json s typed_command behind ≡ some (some r, rest)) where
    talk-TurnOutcome : TurnOutcome (talk json junk s typed_command r rest sys)
    unfolding talk text_of
    talk-TurnOutcome = elim (Option-cases (message r)) [
      | inl e ↦ rw (TurnOutcome, talk, e) (inl ([], no_text (some r) rest asks e []))
      | inr (text, e) ↦
          rw (TurnOutcome, talk, e)
            (answered text e (exchange junk sys text).1 refl (exchange-IsPrefix junk sys text))
    ]
      where
        before : List ℕ
        before = prompt s typed_command ++ logging_out typed_command

        answered :
            (text : List ℕ)
            → message r ≡ some text
            → (o : Answer) → (exchange junk sys text).1 ≡ o
            → IsPrefix (exchange junk sys text).0 text
            → TurnOutcome (elim o as (λ _. Outcome) [
              | exits ↦
                  dies (
                    turn_of s typed_command (some r) text rest [] (exchange junk sys text).0 before)
              | waits ↦
                  hangs (
                    turn_of s typed_command (some r) text rest [] (exchange junk sys text).0 before)
              | faults ↦ breaks
              | returned bytes reads ↦ elim (apply_answer s typed_command (c_text bytes)) [
                | none ↦ breaks
                | some s' ↦ goes (
                    turn_of s' typed_command
                      (some r)
                      text
                      rest
                      (c_text bytes)
                      (exchange junk sys text).0
                      (before ++ shown typed_command (c_text bytes)))
              ]
            ])
        answered text e exits f part = record {
          command = refl;
          request = asks;
          text = inl e;
          part = part;
        }
        answered text e waits f part = record {
          command = refl;
          request = asks;
          text = inl e;
          part = part;
        }
        answered text e faults f part = inr (sys, text, f)
        answered text e (returned bytes reads) f part =
            elim (Option-cases (apply_answer s typed_command (c_text bytes))) [
              | inl g ↦
                  rw (TurnOutcome, g)
                    (inl (c_text bytes, no_state (some r) rest text (c_text bytes) asks e g))
              | inr (s', g) ↦
                  rw (TurnOutcome, g) (round_of (some r) rest text (c_text bytes) s' asks e g, part)
            ]

    connect_and_talk-TurnOutcome :
        TurnOutcome (connect_and_talk json junk s typed_command r rest sys)
    unfolding connect_and_talk
    connect_and_talk-TurnOutcome = elim (Option-cases (open_connection sys)) [
      | inr (sockfd, e) ↦ rw (TurnOutcome, connect_and_talk, e) talk-TurnOutcome
      | inl e ↦ elim (Bool-cases (opens_first typed_command)) [
        | inl f ↦
            rw (TurnOutcome, connect_and_talk, e, f)
              (record { command = refl; request = asks; text = inr refl; part = ([], refl) })
        | inr f ↦ rw (TurnOutcome, connect_and_talk, e, f) talk-TurnOutcome
      ]
    ]

module _ (json : Json) (junk : ℕ) (s : Client) (stdin : List ℕ) (sys : System) where
  -- Each turn of the program is a round of the client on the answer that it receives, and what the server gets is
  -- a prefix of the round's text; one that waits or leaves sends the request of its command or a part of
  -- it; and there is undefined behaviour only where the round has it or the answer is read past its end.
  pub turn-TurnOutcome : TurnOutcome json junk s stdin (turn json junk s stdin sys)
  unfolding turn text_of
  turn-TurnOutcome =
      elim (Option-cases
        (request_of json s (typed_command json junk s stdin) (behind json junk s stdin))) [
          | inl e ↦ rw (TurnOutcome, turn, e) (inl ([], no_request json junk s stdin e []))
          | inr ((none, rest), e) ↦
              rw (TurnOutcome, turn, e)
                (
                  round_of json junk s stdin none rest [] [] s e refl (
                      silent json s (typed_command json junk s stdin) (behind json junk s stdin)
                        rest [] e),
                  ([], refl),
                )
          | inr ((some r, rest), e) ↦
              rw (turn, e) (connect_and_talk-TurnOutcome json junk s stdin r rest sys e)
        ]
