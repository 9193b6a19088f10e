-- ===== src/Router/Tests/Program.antt =====
-- The program of Tema_1/router.c on a small file, with one interface name, and what the loop is given
-- there.
use communication_protocols.Base.{
  ℕ, ◌+◌, ◌≡◌, refl, subst, true, false, Option, none, some, List, [], ◌∷◌, arith, ◌==◌, codes,
}
use communication_protocols.Router.Bytes.{AllBytes}
use communication_protocols.Router.Setup.Rows.{table_text}
use communication_protocols.Router.Sockets.{Calls, Wake, get_packet}
use communication_protocols.Router.Sockets.Receive.{GetOutcome, get_packet-GetOutcome}
use communication_protocols.Router.Program.{with_names, main}
use communication_protocols.Router.Program.Loop.{Wakes, Sound}
use communication_protocols.Router.Program.Sound.{main-Sound}
use communication_protocols.Router.Tests.Data.{fifo, env, reply_frame, ip_packet, neighbour}
use communication_protocols.Router.Tests.Setup.{
  inet_addr, insertion_sort, file_table, rows, two_rows, insertion_sort-Sorts,
}

abbrev calls : ℕ → Calls
calls i = record { socket = some (i + 3); ifindex = λ name. some 1; binds = λ s index. true }

abbrev files : List ℕ → Option (List ℕ)
files name = some (table_text rows)

-- The second interface is ready with the ARP reply, after a quiet answer of select.
abbrev quiet : Wake
quiet = record { ready = some (λ s. false); bytes = none; payload = λ i. 0 }

abbrev woken : Wake
woken = record { ready = some (λ s. s == 4); bytes = some reply_frame; payload = λ i. 0 }

abbrev wakes : List Wake
wakes = quiet ∷ woken ∷ []

get_packet-GetOutcome_example :
    GetOutcome (3 ∷ 4 ∷ 5 ∷ []) wakes (get_packet (3 ∷ 4 ∷ 5 ∷ []) wakes)
get_packet-GetOutcome_example = get_packet-GetOutcome (3 ∷ 4 ∷ 5 ∷ []) wakes

abbrev names : List (List ℕ)
names = codes "rr-0-1" ∷ codes "r-0" ∷ []

wakes-Wakes : Wakes wakes
wakes-Wakes = (
  (λ i. omega arith, λ bytes e. absurd (cc e)),
  (
    (
      λ i. omega arith,
      λ bytes e. let same : reply_frame ≡ bytes = cc in subst AllBytes same (omega arith),
    ),
    tt,
  ),
)

main-Sound_example :
    Sound fifo (with_names (λ name. 1) (λ name. neighbour) env) (insertion_sort file_table) 3 (
      main inet_addr insertion_sort calls files fifo
        (λ name. 1)
        (λ name. neighbour)
        env
        ip_packet
        (codes "router" ∷ codes "rtable.txt" ∷ names)
        wakes)
main-Sound_example =
    main-Sound inet_addr insertion_sort calls files (codes "router") (codes "rtable.txt") names rows
      fifo (λ name. 1) (λ name. neighbour) env ip_packet wakes (omega arith, (omega arith, tt))
      (omega arith) refl two_rows (omega arith) (omega arith, (omega arith, tt))
      insertion_sort-Sorts (λ h m. refl) (λ name. refl) wakes-Wakes (omega arith)
