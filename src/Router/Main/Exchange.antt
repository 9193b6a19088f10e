-- ===== src/Router/Main/Exchange.antt =====
-- The ARP exchange of two routers that run Tema_1/router.c: the request of one, the answer of the
-- other, and what the first learns from it.
use communication_protocols.Base.{ℕ, ◌^◌, ◌<◌, ◌≡◌, subst, some, List, [], ◌∷◌, arith, length}
use communication_protocols.Router.Bytes.{Payload, htons}
use communication_protocols.Router.Route.{RouteTable}
use communication_protocols.Router.Arp.{ArpEntry, capacity, get_arp_entry}
use communication_protocols.Router.Arp.Table.{IsArpTable, learn-IsArpTable}
use communication_protocols.Router.Queue.Interface.{Fifo}
use communication_protocols.Router.Frames.{Packet, Sent, ethertype_arp, arpop_request, arpop_reply}
use communication_protocols.Router.Frames.Arp.{arrives, ArpFields}
use communication_protocols.Router.Headers.{sha, spa}
use communication_protocols.Router.Main.{Env, State, arp_request, arp_reply, round}
use communication_protocols.Router.Main.Arp.{Retains, IsLive, HasRoom}
use communication_protocols.Router.Main.Learns.{
  Frees, known, arp_request-ArpFields, answer, arp_reply-ArpFields, learns,
}

module _ (env : Env) (r : RouteTable) (j : ℕ) (p : Payload) where
  -- The request of the router with `env` for the next hop of `r`, as interface `j` of the a second
  -- router gets it, and the second router's answer, as it comes back.
  abbrev pub asking : Packet
  asking = arrives p j (arp_request env r)

  abbrev pub answering : Env → Payload → Packet
  answering env' q = arrives q r.interface (arp_reply env' asking)

room_left :
    (table : List ArpEntry) (m : Packet)
    → IsArpTable table
    → length table < capacity
    → HasRoom table m
room_left table m v room reply full =
    let (new, taken) = ((learn-IsArpTable table (spa m.payload) (sha m.payload) v).1).0 full in
    omega arith

-- A router that asks for the next hop of a route, which is the address of the interface of a second
-- router that the request comes in by, is answered in the second router's round, whose state stays.
-- If its own ARP table has room, its invariant holds and the storage of `p` keeps its contents, then
-- its round on the answer returns, and its table has the next hop, with the hardware address that it
-- had before or else the one of the second router's interface; and if packets are queued, the one that
-- was queued last leaves by its route to that interface's hardware address. Addresses have 32 bits and hardware
-- addresses six bytes, and the memory that the frames are read into may hold anything.
pub arp_exchange :
    (fifo fifo' : Fifo ℕ) (env env' : Env) (rtable rtable' : List RouteTable) (s : State fifo)
    (s' : State fifo') (r : RouteTable) (j n : ℕ) (p q : Payload)
    → env'.interface_ip j ≡ r.next_hop
    → r.next_hop < 2 ^ 32
    → env.interface_ip r.interface < 2 ^ 32
    → length (env.interface_mac r.interface) ≡ 6
    → length (env'.interface_mac j) ≡ 6
    → Retains env
    → IsLive fifo env rtable n s
    → length s.arp_table < capacity
    → (round fifo' env' rtable' s' (asking env r j p)
        ≡ some (s', arp_reply env' (asking env r j p) ∷ []))
      × (t : State fifo) × (sent : List Sent) × (round fifo env rtable s
            (answering env r j p env' q)
          ≡ some (t, sent))
      × (get_arp_entry t.arp_table r.next_hop
          ≡ some (known s.arp_table r.next_hop (env'.interface_mac j)))
      × Frees fifo env rtable n s (env'.interface_mac j) sent
arp_exchange fifo fifo' env env' rtable rtable' s s' r j n p q same to by six six' retains live
      room =
    let request : ArpFields (asking env r j p).payload (env'.interface_ip j)
        (env.interface_ip r.interface) (htons ethertype_arp) (htons arpop_request)
        (env.interface_mac r.interface) =
      rw same (arp_request-ArpFields env r p j six to by) in
    let reply : ArpFields (answering env r j p env' q).payload (env.interface_ip r.interface)
        r.next_hop (htons ethertype_arp) (htons arpop_reply) (env'.interface_mac j) =
      subst
        (λ a.
          ArpFields (answering env r j p env' q).payload (env.interface_ip r.interface) a
            (htons ethertype_arp) (htons arpop_reply) (env'.interface_mac j))
        same
        (arp_reply-ArpFields env' (asking env r j p) q r.interface (env.interface_ip r.interface)
          (env.interface_mac r.interface) request six six' (rw same to) by) in
    let (t, sent, ok, stored, freed) =
      learns fifo env rtable retains n s (answering env r j p env' q) r.next_hop
        (env.interface_ip r.interface) (env'.interface_mac j) live reply
        (room_left s.arp_table (answering env r j p env' q) live.router.table room) in
    (
      answer fifo' env' rtable' s' (asking env r j p) (env.interface_ip r.interface)
          (env.interface_mac r.interface) request,
      t,
      sent,
      ok,
      stored,
      freed,
    )
