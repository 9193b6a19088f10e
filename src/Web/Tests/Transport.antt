-- ===== src/Web/Tests/Transport.antt =====
-- The transport of Tema_3/helpers.c on concrete reads and writes.
use communication_protocols.Base.{ℕ, ◌≡◌, refl, true, some, List, [], ◌∷◌, ◌++◌, codes, arith}
use communication_protocols.Web.Transport.{
  System, wrote, Read, got, read_failed, returned, receive_from_server, header_loop, body_loop,
  finish, examine, strtol, digits, exchange,
}
use communication_protocols.CString.{skip_spaces}
use communication_protocols.Web.Transport.Sending.{Accepts}
use communication_protocols.Web.Transport.Answers.{Explains}
use communication_protocols.Web.Transport.Exchange.{exchange_whole}
use communication_protocols.Web.Buffer.{
  buffer_init, buffer_add, realloc, memcpy, buffer_find, buffer_find_insensitive, find_by,
  find_loop, compare_at, tolower,
}

abbrev head_start : List ℕ
head_start = codes "OK\r\ncontent-le"

abbrev head_end : List ℕ
head_end = codes "ngth: 3\r\n\r\na"

abbrev cut_reads : List Read
cut_reads = got head_start ∷ got head_end ∷ got (codes "bc") ∷ read_failed ∷ []

-- The header comes in two reads, and the body in two.
cut_run :
    receive_from_server 170 cut_reads
    ≡ returned (codes "OK\r\ncontent-length: 3\r\n\r\nabc" ++ (0 ∷ [])) (read_failed ∷ [])
unfolding receive_from_server header_loop body_loop finish examine strtol skip_spaces digits
    buffer_init buffer_add realloc memcpy buffer_find buffer_find_insensitive find_by find_loop
    compare_at tolower
cut_run = refl

abbrev two_writes : System
two_writes = record {
  socket = some 3;
  connects = true;
  writes = wrote 2 ∷ wrote 1 ∷ wrote 0 ∷ wrote 0 ∷ [];
  reads = cut_reads;
}

takes_two : Accepts 3 two_writes.writes
takes_two = (
  omega arith,
  (λ _. omega arith),
  (omega arith, (λ _. omega arith), (omega arith, (λ h. h), (omega arith, (λ h. h), tt))),
)

exchange_whole_example :
    ((exchange 170 two_writes (codes "GET")).0 ≡ codes "GET")
    × Explains 1 [] cut_reads (exchange 170 two_writes (codes "GET")).1
exchange_whole_example =
    exchange_whole 170 3 two_writes (codes "GET") refl refl takes_two (omega arith)
