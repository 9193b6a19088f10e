-- ===== src/Router/Tests/Witnesses.antt =====
-- The theorems on the router of Tema_1 at the data of Tests/Data.
use communication_protocols.Base.{
  ℕ, zero, suc, ◌-◌, ◌≡◌, ◌↔◌, refl, true, false, none, some, List, [], ◌∷◌, ◌++◌, arith, length,
}
use communication_protocols.Router.Bytes.{bytes16, htons}
use communication_protocols.Router.Hex.{hwaddr_aton, print_mac}
use communication_protocols.Router.Hex.RoundTrip.{hwaddr_aton-print_mac}
use communication_protocols.Router.Checksum.{ip_checksum}
use communication_protocols.Router.Checksum.Sum.{sum16, ones_sum}
use communication_protocols.Router.Checksum.Rfc.{ip_checksum_rfc1071, ip_checksum_verifies}
use communication_protocols.Router.Route.{get_best_route, null}
use communication_protocols.Router.Route.Search.{matches, Answers, get_best_route-Answers}
use communication_protocols.Router.Route.OneMask.{OneMask, get_best_route_complete}
use communication_protocols.Router.Arp.{ArpEntry, get_arp_entry, learn}
use communication_protocols.Router.Arp.Table.{IsArpTable, learn-IsArpTable}
use communication_protocols.Router.Queue.{Heap, Queue, queue_create, queue_enq, queue_deq, load}
use communication_protocols.Router.Queue.Refines.{
  IsQueue, queue_create-IsQueue, queue_enq-IsQueue, queue_deq-IsQueue,
}
use communication_protocols.Router.Queue.Chain.{last}
use communication_protocols.Router.Frames.{Sent}
use communication_protocols.Router.Main.{State, dequeue, handle_arp}
use communication_protocols.Router.Main.Arp.{
  HasRoom, Released, dequeue-Released, ArpReturns, handle_arp-ArpOutcome,
}
use communication_protocols.Router.Tests.Data.{
  rtable-IsSorted, bump, fifo, rtable, env, neighbour, reply_packet, busy, busy-IsLive,
}

abbrev table : List ArpEntry
table = record { ip = 7; mac = neighbour } ∷ []

room : HasRoom busy.arp_table reply_packet
unfolding learn get_arp_entry
room o e = cc

rtable-OneMask : OneMask rtable 0x00ffffff
rtable-OneMask zero r e = ground arith
rtable-OneMask (suc zero) r e = ground arith
rtable-OneMask (suc (suc i)) r e = absurd (cc e)

table-IsArpTable : IsArpTable table
unfolding get_arp_entry
table-IsArpTable = record { distinct = (refl, tt); fits = omega arith }

abbrev one_queue : Queue
one_queue = record { head = 1; tail = 1 }

abbrev one_heap : Heap ℕ
one_heap = (1, some (record { element = 5; next = 0 })) ∷ []

one-IsQueue : IsQueue one_heap one_queue (5 ∷ [])
one-IsQueue = ((1, 5) ∷ [], refl, last (omega arith) refl)

handle_arp-ArpOutcome_example :
    ArpReturns fifo env rtable 1 busy reply_packet (handle_arp fifo env rtable busy reply_packet)
handle_arp-ArpOutcome_example =
    handle_arp-ArpOutcome fifo env rtable 1 busy reply_packet (λ o m. refl) busy-IsLive refl room

dequeue-Released_example :
    (s' : State fifo) × (sent : List Sent) × (dequeue fifo env rtable busy neighbour
      ≡ some (s', sent))
    × Released fifo env rtable 1 busy neighbour s' sent
dequeue-Released_example = dequeue-Released fifo env rtable (λ m. refl) 1 busy neighbour busy-IsLive

abbrev header : List ℕ
header = 0x45 ∷ 0 ∷ 0 ∷ 28 ∷ 0 ∷ 1 ∷ 0 ∷ 0 ∷ 64 ∷ 6 ∷ []

abbrev addresses : List ℕ
addresses = 10 ∷ 0 ∷ 0 ∷ 2 ∷ 192 ∷ 168 ∷ 1 ∷ 5 ∷ []

ip_checksum_rfc1071_example :
    ip_checksum 3 (1 ∷ 2 ∷ 3 ∷ 4 ∷ 5 ∷ [])
    ≡ htons (65535 - ones_sum (sum16 (1 ∷ 2 ∷ 3 ∷ 4 ∷ 5 ∷ [])))
ip_checksum_rfc1071_example =
    ip_checksum_rfc1071 3 (1 ∷ 2 ∷ 3 ∷ 4 ∷ 5 ∷ []) (omega arith) (omega arith)

ip_checksum_verifies_example :
    ip_checksum 4096
      (header ++ (bytes16 (ip_checksum 8210 (header ++ 0 ∷ 0 ∷ addresses)) ++ addresses))
    ≡ 0
ip_checksum_verifies_example =
    ip_checksum_verifies 8210 4096 5 header addresses refl (omega arith) (omega arith)

get_best_route-Answers_example : Answers rtable 0x0701a8c0 (get_best_route rtable 0x0701a8c0)
get_best_route-Answers_example = get_best_route-Answers rtable 0x0701a8c0

get_best_route_complete_example :
    (get_best_route rtable 0x07070707 ≡ null) ↔ ((i : ℕ) → matches rtable 0x07070707 i ≡ false)
get_best_route_complete_example =
    get_best_route_complete rtable 0x07070707 0x00ffffff rtable-IsSorted rtable-OneMask

hwaddr_aton-print_mac_example :
    hwaddr_aton (print_mac neighbour ++ b':' ∷ b'f' ∷ b'f' ∷ []) ≡ (neighbour, true)
hwaddr_aton-print_mac_example =
    hwaddr_aton-print_mac neighbour (b':' ∷ b'f' ∷ b'f' ∷ []) refl (omega arith)

learn-IsArpTable_example :
    ((table' : List ArpEntry) → learn table 8 neighbour ≡ some table' → IsArpTable table')
    × ((learn table 8 neighbour ≡ none) ↔ ((get_arp_entry table 8 ≡ none) × (length table ≡ 10)))
learn-IsArpTable_example = learn-IsArpTable table 8 neighbour table-IsArpTable

queue_enq-IsQueue_example :
    (q' : Queue) × (h' : Heap ℕ) × (queue_enq bump.malloc 5 queue_create [] ≡ some (q', h'))
    × IsQueue h' q' (5 ∷ [])
queue_enq-IsQueue_example = queue_enq-IsQueue bump 5 [] queue_create [] queue_create-IsQueue

queue_deq-IsQueue_example :
    (q' : Queue) × (h' : Heap ℕ) × (queue_deq one_queue one_heap ≡ some (5, q', h'))
    × IsQueue h' q' []
    × (load h' one_queue.head ≡ none)
queue_deq-IsQueue_example = queue_deq-IsQueue 5 one_heap one_queue [] one-IsQueue
