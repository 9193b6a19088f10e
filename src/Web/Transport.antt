-- ===== src/Web/Transport.antt =====
-- send_to_server and receive_from_server of Tema_3/helpers.c. What the system answers to each write
-- and read is a list that the loops go through; a loop that comes to its end is still waiting. `error`
-- leaves the program.
pub mod Sending
pub mod Answers
pub mod Receiving
pub mod Exchange
pub mod Places
pub mod Head
pub mod Whole
pub mod Serves
use communication_protocols.Base.{
  ℕ, zero, suc, ◌+◌, ◌-◌, ◌*◌, ◌%◌, ◌^◌, Bool, true, false, ◌&&◌, ◌||◌, Option, none, some, List,
  [], ◌∷◌, ◌++◌, ltb, leb, ◌==◌, if◌then◌else◌, min, length, take, drop, codes,
}
use communication_protocols.CString.{skip_spaces}
use communication_protocols.Web.Buffer.{
  Buffer, buffer_init, buffer_add, buffer_find, buffer_find_insensitive,
}

-- The result of a write, a number of bytes or -1, and of a read, these bytes or -1.
pub data Write : Type 0 where
  wrote : ℕ → Write
  write_failed : Write

pub data Read : Type 0 where
  got : List ℕ → Read
  read_failed : Read

pub data Status : Type 0 where
  waiting exited finished : Status

-- The bytes that the writes took, and how the loop stands.
unfoldable pub send_loop : (message : List ℕ) (sent : ℕ) → List Write → List ℕ × Status
send_loop message sent [] = ([], waiting)
send_loop message sent (write_failed ∷ ws) = ([], exited)
send_loop message sent (wrote n ∷ ws) =
    let rest = send_loop message (sent + n) ws in
    if n == 0
    then ([], finished)
    else if ltb (sent + n) (length message)
    then (take n (drop sent message) ++ rest.0, rest.1)
    else (take n (drop sent message), finished)

unfoldable pub send_to_server : List ℕ → List Write → List ℕ × Status
unfolding send_loop
send_to_server message ws = send_loop message 0 ws

abbrev pub header_terminator : List ℕ
header_terminator = codes "\r\n\r\n"

abbrev pub content_length : List ℕ
content_length = codes "Content-Length: "

-- The digits up to another character; `none` if there is none in the block.
unfoldable pub digits : ℕ → List ℕ → Option ℕ
digits acc [] = none
digits acc (c ∷ s) =
    let rest = digits (acc * 10 + (c - b'0')) s in
    if leb b'0' c && leb c b'9' then rest else some acc

-- A long that strtol gives, as an int, and this as a size_t.
abbrev pub of_int : ℕ → ℕ
of_int bits = if ltb bits (2 ^ 31) then bits else bits + (2 ^ 64 - 2 ^ 32)

abbrev pub of_long : ℕ → ℕ
of_long n = of_int (min n (2 ^ 63 - 1) % 2 ^ 32)

abbrev pub of_negative_long : ℕ → ℕ
of_negative_long n = of_int ((2 ^ 32 - min n (2 ^ 63) % 2 ^ 32) % 2 ^ 32)

abbrev pub on_some : (ℕ → ℕ) → Option ℕ → Option ℕ
on_some f none = none
on_some f (some n) = some (f n)

-- content_length = strtol(…, NULL, 10), as it is added to a size_t
unfoldable pub strtol : List ℕ → Option ℕ
unfolding skip_spaces digits
strtol s = elim (skip_spaces s) [
  | [] ↦ none
  | c ∷ r ↦
      if c == b'-'
      then on_some of_negative_long (digits 0 r)
      else if c == b'+'
      then on_some of_long (digits 0 r)
      else on_some of_long (digits 0 (c ∷ r))
]

-- -1 as a size_t
abbrev pub minus_one : ℕ
minus_one = 2 ^ 64 - 1

-- How the loop over the header ends: with `header_end` and `content_length` as they are then.
pub data Header : Type 0 where
  header : Buffer → (header_end content_length : ℕ) → List Read → Header
  header_waits header_exits header_faults : Header

abbrev pub block_of : Buffer → List ℕ
block_of b = elim b.block [ none ↦ [] | some d ↦ d ]

-- What a round finds in the buffer: the end of the header and the length; none of the first, or none of
-- the second; or a fault.
pub data Found : Type 0 where
  complete : (header_end content_length : ℕ) → Found
  partial : (header_end : ℕ) → Found
  broken : Found

unfoldable pub examine : Buffer → Found
unfolding buffer_find buffer_find_insensitive strtol
examine b = elim (buffer_find b header_terminator) [
  | none ↦ broken
  | some none ↦ partial minus_one
  | some (some i) ↦ elim (buffer_find_insensitive b content_length) [
    | none ↦ broken
    | some none ↦ partial (i + 4)
    | some (some k) ↦ elim (strtol (drop (k + 16) (block_of b))) [
      | none ↦ broken
      | some n ↦ complete (i + 4) n
    ]
  ]
]

-- The string that is returned, and the reads that are left.
pub data Answer : Type 0 where
  returned : (bytes : List ℕ) → List Read → Answer
  waits exits faults : Answer

module _ (junk : ℕ) where
  unfoldable pub header_loop : Buffer → (header_end : ℕ) → List Read → Header
  unfolding buffer_add examine
  header_loop b header_end [] = header_waits
  header_loop b header_end (read_failed ∷ rs) = header_exits
  header_loop b header_end (got bytes ∷ rs) = elim (length bytes == 0) [
    | true ↦ header b header_end 0 rs
    | false ↦ elim (buffer_add junk b bytes) [
      | none ↦ header_faults
      | some b' ↦ elim (examine b') [
        | broken ↦ header_faults
        | partial e ↦ header_loop b' e rs
        | complete e n ↦ header b' e n rs
      ]
    ]
  ]

  -- buffer_add(&buffer, "", 1); return buffer.data;
  unfoldable pub finish : Buffer → List Read → Answer
  unfolding buffer_add
  finish b rs = elim (buffer_add junk b (0 ∷ [])) [
    | none ↦ faults
    | some b' ↦ returned (block_of b') rs
  ]

  -- while (buffer.size < total)
  unfoldable pub body_loop : Buffer → (total : ℕ) → List Read → Answer
  unfolding finish buffer_add
  body_loop b total [] = if ltb b.size total then waits else finish b []
  body_loop b total (read_failed ∷ rs) =
      if ltb b.size total then exits else finish b (read_failed ∷ rs)
  body_loop b total (got bytes ∷ rs) = elim (ltb b.size total) [
    | false ↦ finish b (got bytes ∷ rs)
    | true ↦ elim (length bytes == 0) [
      | true ↦ finish b rs
      | false ↦ elim (buffer_add junk b bytes) [ none ↦ faults | some b' ↦ body_loop b' total rs ]
    ]
  ]

  unfoldable pub receive_from_server : List Read → Answer
  unfolding header_loop body_loop
  receive_from_server rs = elim (header_loop buffer_init 0 rs) [
    | header b e n rest ↦ body_loop b ((n + e) % 2 ^ 64) rest
    | header_waits ↦ waits
    | header_exits ↦ exits
    | header_faults ↦ faults
  ]

-- What the system answers over a connection: the descriptor of socket, if there is one, whether
-- connect succeeds, and the results of the writes and the reads.
pub record System : Type 0 where
  pub socket : Option ℕ
  pub connects : Bool
  pub writes : List Write
  pub reads : List Read

-- The descriptor, or the end of the program.
unfoldable pub open_connection : System → Option ℕ
open_connection sys = elim sys.socket [
  | none ↦ none
  | some sockfd ↦ if sys.connects then some sockfd else none
]

-- open_connection, send_to_server, receive_from_server, close_connection, as the commands of client.c
-- call them; and the bytes that the server gets.
unfoldable pub exchange : (junk : ℕ) → System → List ℕ → List ℕ × Answer
unfolding open_connection send_to_server receive_from_server
exchange junk sys message = elim (open_connection sys) [
  | none ↦ ([], exits)
  | some sockfd ↦
      let out = send_to_server message sys.writes in
      elim out.1 [
        | waiting ↦ (out.0, waits)
        | exited ↦ (out.0, exits)
        | finished ↦ (out.0, receive_from_server junk sys.reads)
      ]
]
