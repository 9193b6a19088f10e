-- ===== src/Router/Tests/Runs.antt =====
-- A run of the router of Tema_1 on the data of Tests/Data.
use communication_protocols.Base.{◌≡◌, refl, none, some, List, [], ◌∷◌, ◌++◌, dec_lt, lt_wf}
use communication_protocols.Router.Hex.{hwaddr_aton}
use communication_protocols.Router.Checksum.{ip_checksum}
use communication_protocols.Router.Route.{get_best_route}
use communication_protocols.Router.Arp.{get_arp_entry, learn}
use communication_protocols.Router.Queue.{queue_create, queue_enq, queue_deq}
use communication_protocols.Router.Frames.{Sent, parse_arp, parse_icmp, send_packet, send_arp}
use communication_protocols.Router.Main.{
  broadcast, best_route, is_echo_request, arp_request, forward, hop, read_packet, is_arp_request,
  release, enqueue, send_on, handle_ip, dequeue, handle_reply, handle_arp, round, run,
}
use communication_protocols.Router.Headers.{update_header, readdress}
use communication_protocols.Router.Tests.Data.{
  fifo, rtable, env, neighbour, ip_packet, reply_packet, start,
}

-- What a run computes through.
program : Unit {0}
unfolding ip_checksum hwaddr_aton get_best_route get_arp_entry learn queue_create queue_enq
    queue_deq parse_arp parse_icmp send_packet send_arp broadcast update_header readdress best_route
    is_echo_request arp_request forward hop read_packet is_arp_request release enqueue send_on
    handle_ip dequeue handle_reply handle_arp round run dec_lt lt_wf
program = tt

-- The packet leaves by interface 1 to the neighbour, with time to live 63 and the checksum of that.
exchange :
    (elim (run fifo env rtable start (ip_packet ∷ reply_packet ∷ [])) as (λ _. List Sent) [
      | none ↦ []
      | some (_, sent) ↦ sent
    ])
    ≡ record {
      interface = 1;
      bytes =
          (255 ∷ 255 ∷ 255 ∷ 255 ∷ 255 ∷ 255 ∷ [])
          ++ ((2 ∷ 0 ∷ 0 ∷ 0 ∷ 0 ∷ 1 ∷ [])
              ++ (8
                    ∷ 6
                    ∷ 0
                    ∷ 1
                    ∷ 8
                    ∷ 0
                    ∷ 6
                    ∷ 4
                    ∷ 0
                    ∷ 1
                    ∷ (2 ∷ 0 ∷ 0 ∷ 0 ∷ 0 ∷ 1 ∷ 192 ∷ 168 ∷ 1 ∷ 1 ∷ [])
                  ++ (255 ∷ 255 ∷ 255 ∷ 255 ∷ 255 ∷ 255 ∷ 192 ∷ 168 ∷ 1 ∷ 5 ∷ [])));
    }
      ∷ record {
        interface = 1;
        bytes =
            neighbour
            ++ ((2 ∷ 0 ∷ 0 ∷ 0 ∷ 0 ∷ 1 ∷ [])
                ++ (8 ∷ 0 ∷ 0x45 ∷ 0 ∷ 0 ∷ 28 ∷ 0 ∷ 1 ∷ 0 ∷ 0 ∷ 63 ∷ 6 ∷ 0xb0 ∷ 0x2c ∷ 10 ∷ 0 ∷ 0
                    ∷ 2 ∷ 192 ∷ 168 ∷ 1 ∷ 5 ∷ []));
      }
      ∷ []
unfolding program
exchange = refl
