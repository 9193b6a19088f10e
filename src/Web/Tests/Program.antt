-- ===== src/Web/Tests/Program.antt =====
-- Runs of main of Tema_3/client.c on what is typed and what the system answers.
use communication_protocols.Base.{ℕ, ◌≡◌, refl, true, false, some, List, [], ◌∷◌, map, codes}
use communication_protocols.CString.{c_text, is_prefix}
use communication_protocols.Web.Client.{
  request_of, cleared_field, fgets, strip, up_to_newline, command_of,
}
use communication_protocols.Web.Transport.{System, wrote, got}
use communication_protocols.Web.Program.{left, turn, run, main, prompt}
use communication_protocols.Web.Program.Authorised.{IsAuthorised, turns, main-IsAuthorised}
use communication_protocols.Web.Tests.Session.{json, typed, granted, admitted}

-- A connection over which the server sends `answer` in one piece, and closes.
abbrev serving : List ℕ → System
serving answer = record {
  socket = some 3;
  connects = true;
  writes = wrote 100 ∷ wrote 50 ∷ wrote 0 ∷ [];
  reads = got answer ∷ got [] ∷ got [] ∷ [];
}

abbrev systems : List System
systems =
    serving granted
    ∷ serving admitted
    ∷ serving (codes "{}")
    ∷ serving (codes "bye")
    ∷ serving []
    ∷ []

-- An unknown command, and exit.
bad_command_run : (main json 170 (codes "quit\nexit\n") systems).1 ≡ left
unfolding main run turn cleared_field fgets c_text strip up_to_newline command_of request_of prompt
    is_prefix
bad_command_run = refl

bad_command_text :
    map (λ t. t.printed) (main json 170 (codes "quit\nexit\n") systems).0
    ≡ codes "Bad command, try again!\n" ∷ [] ∷ []
unfolding main run turn cleared_field fgets c_text strip up_to_newline command_of request_of prompt
    is_prefix
bad_command_text = refl

main-IsAuthorised_example : IsAuthorised json 170 false false (turns (main json 170 typed systems))
main-IsAuthorised_example = main-IsAuthorised json 170 typed systems
