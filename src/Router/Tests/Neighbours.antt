-- ===== src/Router/Tests/Neighbours.antt =====
-- Two routers of Tema_1: one has a packet for 192.168.1.5, which is the other.
use communication_protocols.Base.{◌≡◌, refl, none, some, List, [], ◌∷◌, arith, dec_lt, lt_wf}
use communication_protocols.Router.Bytes.{Payload, slice}
use communication_protocols.Router.Checksum.{ip_checksum}
use communication_protocols.Router.Route.{get_best_route}
use communication_protocols.Router.Arp.{get_arp_entry}
use communication_protocols.Router.Headers.{daddr}
use communication_protocols.Router.Frames.{Sent, parse_icmp}
use communication_protocols.Router.Main.{
  Env, State, round, arp_request, arp_reply, best_route, is_echo_request,
}
use communication_protocols.Router.Main.Hop.{IsHop}
use communication_protocols.Router.Main.Outcome.{Passes}
use communication_protocols.Router.Main.Learns.{Frees}
use communication_protocols.Router.Main.Exchange.{asking, answering, arp_exchange}
use communication_protocols.Router.Main.Delivery.{delivered}
use communication_protocols.Router.Tests.Data.{
  fifo, env, lan, rtable, start, start-IsLive, payload-IsBytes, ip_frame, ip_packet, neighbour,
}

-- 192.168.1.5 is a second router.
abbrev env_b : Env
env_b = record env { interface_ip = λ i. 0x0501a8c0; interface_mac = λ i. neighbour }

arp_exchange_example :
    (round fifo env_b [] start (asking env lan 0 (λ i. 0))
      ≡ some (start, arp_reply env_b (asking env lan 0 (λ i. 0)) ∷ []))
    × (t : State fifo) × (sent : List Sent) × (round fifo env rtable start
          (answering env lan 0 (λ i. 0) env_b (λ i. 7))
        ≡ some (t, sent))
    × (get_arp_entry t.arp_table 0x0501a8c0 ≡ some (record { ip = 0x0501a8c0; mac = neighbour }))
    × Frees fifo env rtable 0 start neighbour sent
unfolding get_arp_entry
arp_exchange_example =
    arp_exchange fifo fifo env env_b rtable [] start start lan 0 0 (λ i. 0) (λ i. 7) refl
      (omega arith) (omega arith) refl refl (λ m. refl) start-IsLive (omega arith)

packet_passes : Passes env ip_packet
unfolding is_echo_request parse_icmp ip_checksum dec_lt lt_wf
packet_passes = record { foreign = refl; alive = omega arith; intact = refl }

by_lan : best_route rtable (daddr ip_packet.payload) ≡ some (some lan)
unfolding best_route get_best_route
by_lan = refl

no_entry : get_arp_entry start.arp_table (daddr ip_packet.payload) ≡ none
unfolding get_arp_entry
no_entry = refl

delivered_example :
    (t t' : State fifo) × (f : Sent) × (payload : Payload) × (round fifo env rtable start ip_packet
      ≡ some (t, arp_request env lan ∷ []))
    × (round fifo env_b [] start (asking env lan 0 (λ i. 0))
        ≡ some (start, arp_reply env_b (asking env lan 0 (λ i. 0)) ∷ []))
    × (round fifo env rtable t (answering env lan 0 (λ i. 0) env_b (λ i. 7)) ≡ some (t', f ∷ []))
    × IsHop (env.interface_mac 1) neighbour ip_packet.payload payload
    × (f.interface ≡ 1)
    × (f.bytes ≡ slice payload 0 34)
delivered_example =
    delivered fifo fifo env env_b rtable [] start start lan 0 0 (λ i. 0) (λ i. 7) ip_packet refl
      (payload-IsBytes ip_frame (omega arith)) packet_passes by_lan no_entry refl (omega arith)
      (omega arith) (λ i. refl) refl (λ m. refl) start-IsLive (omega arith)
