-- ===== src/Web/Program.antt =====
-- main of Tema_3/client.c over its connections. A turn of the loop is a round of Web/Client with the
-- exchange of its request over Web/Transport and with what is printed. What the system answers is one
-- System for each turn; a program that comes to the end of them goes on.
pub mod Silent
pub mod Turns
pub mod Runs
pub mod Authorised
pub mod Answered
pub mod Visit
use communication_protocols.Base.{
  ℕ, Bool, true, false, Option, none, some, List, [], ◌∷◌, ◌++◌, codes,
}
use communication_protocols.CString.{c_text}
use communication_protocols.Web.Client.{
  Json, Command, exit, register, login, enter_library, get_books, get_book, add_book, del_book,
  logout, unknown, Request, Client, Round, len, cleared_field, command_of, request_of, message,
  apply_answer,
}
use communication_protocols.Web.Transport.{
  System, Answer, returned, waits, exits, faults, open_connection, exchange,
}

-- What a command prints before its exchange: the prompts, and the newline behind them.
unfoldable pub prompt : Client → Command → List ℕ
prompt s exit = []
prompt s register = codes "username:password:\n"
prompt s login = elim s.cookie [
  | none ↦ codes "username:password:\n"
  | some _ ↦ codes "Already logged in!\n"
]
prompt s enter_library = []
prompt s get_books = codes "\n"
prompt s get_book = codes "id=\n"
prompt s add_book = codes "title:author:genre:publisher:page_count:\n"
prompt s del_book = codes "id=\n"
prompt s logout = []
prompt s unknown = codes "Bad command, try again!\n"

-- What logout prints once the connection is open.
unfoldable pub logging_out : Command → List ℕ
logging_out logout = codes "Logging out.....\n\n"
logging_out _ = []

-- puts(response), and the newline that some commands print behind it.
unfoldable pub shown : Command → List ℕ → List ℕ
shown register answer = answer ++ codes "\n\n"
shown login answer = answer ++ codes "\n\n"
shown enter_library answer = answer ++ codes "\n\n"
shown get_books answer = answer ++ codes "\n\n"
shown get_book answer = answer ++ codes "\n\n"
shown _ answer = answer ++ codes "\n"

-- The GET and DELETE commands open the connection before they write the request.
unfoldable pub opens_first : Command → Bool
opens_first register = false
opens_first login = false
opens_first add_book = false
opens_first _ = true

-- A turn: its round, the answer as the string that it is, the bytes that the server got, and the text on
-- the standard output.
pub record Turn : Type 0 where
  pub round : Round
  pub answer : List ℕ
  pub delivered : List ℕ
  pub printed : List ℕ

-- A turn goes through, waits for the server, or leaves the program by `error`, or it has undefined
-- behaviour.
pub data Outcome : Type 0 where
  goes hangs dies : Turn → Outcome
  breaks : Outcome

-- How a run stands: behind exit, after the last System, in a turn that waits, out of one by `error`, or
-- at undefined behaviour.
pub data End : Type 0 where
  left running : End
  hung died : Turn → End
  broken : End

-- A turn of the command `c` up to the request `sent`, in state `s`.
abbrev pub turn_of :
    Client → Command → Option Request → (text stdin answer delivered printed : List ℕ) → Turn
turn_of s c sent text stdin answer delivered printed = record {
  round = record { client = s; command = c; sent = sent; text = text; stdin = stdin };
  answer = answer;
  delivered = delivered;
  printed = printed;
}

module _ (json : Json) (junk : ℕ) where
  -- From the request on; `stdin` is what is left behind the fields.
  unfoldable pub talk : Client → Command → Request → List ℕ → System → Outcome
  unfolding message exchange apply_answer prompt logging_out shown
  talk s c r stdin sys = elim (message r) [
    | none ↦ breaks
    | some text ↦
        let out = exchange junk sys text in
        let before : List ℕ = prompt s c ++ logging_out c in
        elim out.1 [
          | exits ↦ dies (turn_of s c (some r) text stdin [] out.0 before)
          | waits ↦ hangs (turn_of s c (some r) text stdin [] out.0 before)
          | faults ↦ breaks
          | returned bytes reads ↦ elim (apply_answer s c (c_text bytes)) [
            | none ↦ breaks
            | some s' ↦ goes (
                turn_of s' c (some r) text stdin (c_text bytes) out.0
                  (before ++ shown c (c_text bytes)))
          ]
        ]
  ]

  unfoldable pub connect_and_talk : Client → Command → Request → List ℕ → System → Outcome
  unfolding open_connection opens_first talk
  connect_and_talk s c r stdin sys = elim (open_connection sys) [
    | some sockfd ↦ talk s c r stdin sys
    | none ↦ elim (opens_first c) [
      | true ↦ dies (turn_of s c (some r) [] stdin [] [] (prompt s c))
      | false ↦ talk s c r stdin sys
    ]
  ]

  unfoldable pub turn : Client → List ℕ → System → Outcome
  unfolding cleared_field command_of request_of connect_and_talk
  turn s stdin sys =
      let line = cleared_field len stdin in
      let c : Command = command_of line.0 in
      elim (request_of json s c line.1) [
        | none ↦ breaks
        | some (none, rest) ↦ goes (turn_of s c none [] rest [] [] (prompt s c))
        | some (some r, rest) ↦ connect_and_talk s c r rest sys
      ]

  -- The turns that go through, and how the run stands.
  unfoldable pub run : Client → List ℕ → List System → List Turn × End
  unfolding turn
  run s stdin [] = ([], running)
  run s stdin (sys ∷ systems) = elim (turn s stdin sys) [
    | breaks ↦ ([], broken)
    | hangs t ↦ ([], hung t)
    | dies t ↦ ([], died t)
    | goes t ↦ elim t.round.command [
      | exit ↦ (t ∷ [], left)
      | _ ↦ let rest = run t.round.client t.round.stdin systems in (t ∷ rest.0, rest.1)
    ]
  ]

  unfoldable pub main : List ℕ → List System → List Turn × End
  unfolding run
  main stdin systems = run (record { cookie = none; jwt = none }) stdin systems
