-- ===== src/Web/Program/Answered.antt =====
-- A turn of main of Tema_3/client.c whose request an HTTP server answers.
use communication_protocols.Base.{ℕ, ◌≡◌, refl, ◌∙◌, some, List, [], ◌∷◌, ◌++◌, append-nil}
use communication_protocols.CString.{c_text, NoZero, c_text-whole}
use communication_protocols.Web.Client.{
  Json, Command, Request, Client, request_of, message, apply_answer,
}
use communication_protocols.Web.Transport.{Read, System, returned, open_connection, exchange}
use communication_protocols.Web.Transport.Serves.{Serves, opens, exchange-Serves}
use communication_protocols.Web.Program.{
  goes, prompt, logging_out, shown, turn_of, talk, connect_and_talk, turn,
}
use communication_protocols.Web.Program.Turns.{typed_command, behind}

c_text-end : (s : List ℕ) → NoZero s → c_text (s ++ (0 ∷ [])) ≡ s
unfolding c_text
c_text-end s h = c_text-whole s (0 ∷ []) h ∙ append-nil s

module _ (json : Json) (junk : ℕ) (s s' : Client) (c : Command) (r : Request) (rest : List ℕ)
    (sys : System) where
  opened_first :
      (sockfd : ℕ)
      → open_connection sys ≡ some sockfd
      → connect_and_talk json junk s c r rest sys ≡ talk json junk s c r rest sys
  unfolding connect_and_talk
  opened_first sockfd e = rw (e, connect_and_talk) refl

  talked :
      (text bytes answer : List ℕ) (reads : List Read)
      → message r ≡ some text
      → exchange junk sys text ≡ (text, returned bytes reads)
      → c_text bytes ≡ answer
      → apply_answer s c answer ≡ some s'
      → talk json junk s c r rest sys
        ≡ goes (
            turn_of s' c
              (some r)
              text
              rest
              answer
              text
              ((prompt s c ++ logging_out c) ++ shown c answer))
  unfolding talk
  talked text bytes answer reads fits e as_string applied =
      rw (fits, talk)
        (rw e (
          rw as_string (
            rw applied λ i. goes (
              turn_of s' c (some r) text rest (as_string i) (e i).0
                ((prompt s c ++ logging_out c) ++ shown c (as_string i))))))

module _ (json : Json) (junk : ℕ) (s s' : Client) (stdin rest : List ℕ) (sys : System) (r : Request)
    (text head body : List ℕ) where
  abbrev command : Command
  command = typed_command json junk s stdin

  -- If a command sends a request whose text fits the buffers, and the system opens the connection, takes
  -- the text and gives an HTTP answer with a length and without a zero byte, in reads of any size, then the
  -- turn goes through: the server has got the text, whole, the whole answer is printed behind the
  -- prompts, and the client is what the answer makes of it.
  pub turn_answered :
      request_of json s command (behind json junk s stdin) ≡ some (some r, rest)
      → message r ≡ some text
      → Serves sys text head body
      → NoZero (head ++ body)
      → apply_answer s command (head ++ body) ≡ some s'
      → turn json junk s stdin sys
        ≡ goes (
            turn_of s' command
              (some r)
              text
              rest
              (head ++ body)
              text
              ((prompt s command ++ logging_out command) ++ shown command (head ++ body)))
  unfolding turn
  turn_answered asks fits serves clean applied =
      rw (asks, turn) refl
      ∙ opened_first json junk s s' command r rest sys serves.sockfd
          (opens junk sys text head body serves)
      ∙ talked json junk s s' command r rest sys text ((head ++ body) ++ (0 ∷ [])) (head ++ body)
          serves.rest fits (exchange-Serves junk sys text head body serves)
          (c_text-end (head ++ body) clean) applied
