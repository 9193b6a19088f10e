-- ===== src/Router/Tests/Data.antt =====
-- Concrete data for the tests of the router.
use communication_protocols.Base.{
  ◌≤◌, suc, get_elem?, ℕ, zero, suc, ◌+◌, ◌<◌, ◌≡◌, refl, none, some, List, [], ◌∷◌, ◌++◌, max,
  arith, ◌==◌, if◌then◌else◌, get_or,
}
use communication_protocols.Router.Bytes.{Payload, IsBytes, AllBytes}
use communication_protocols.Router.Route.{RouteTable, comparator, get_best_route}
use communication_protocols.Router.Route.Comparator.{NotAfter}
use communication_protocols.Router.Route.OneMask.{IsSorted}
use communication_protocols.Router.Queue.{Heap, load}
use communication_protocols.Router.Queue.Chain.{last}
use communication_protocols.Router.Queue.Refines.{Malloc}
use communication_protocols.Router.Queue.Interface.{Fifo, pointer_fifo}
use communication_protocols.Router.Frames.{Packet}
use communication_protocols.Router.Main.{Env, State, best_route}
use communication_protocols.Router.Main.Outcome.{IsRouter}
use communication_protocols.Router.Main.Arp.{IsLive, Routed}

-- An allocator that never reuses an address.
module _ {E : Type 0} where
  abbrev pub top : Heap E → ℕ
  top [] = 0
  top ((a, _) ∷ h) = max a (top h)

  pub load_above : (h : Heap E) (p : ℕ) → top h < p → load h p ≡ none
  load_above [] p lt = refl
  load_above ((a, c) ∷ h) p lt = ground (arith, load_above h p)

abbrev pub bump : Malloc ℕ
bump = record {
  malloc = λ h. top h + 1;
  not_null = λ h. omega arith;
  unused = λ h. load_above h (top h + 1) (omega arith);
}

abbrev pub fifo : Fifo ℕ
fifo = pointer_fifo bump

abbrev pub payload : List ℕ → Payload
payload bs = λ i. get_or bs i 0

pub payload-IsBytes : (bs : List ℕ) → AllBytes bs → IsBytes (payload bs)
payload-IsBytes [] h i = omega arith
payload-IsBytes (b ∷ bs) h zero = h.0
payload-IsBytes (b ∷ bs) h (suc i) = payload-IsBytes bs h.1 i

-- 192.168.1.0/24 by interface 1, and 10.0.0.0/24 by interface 0, in the order of comparator: the
-- words are those of the little-endian host.
abbrev pub lan : RouteTable
lan = record { prefix = 0x0001a8c0; next_hop = 0x0501a8c0; mask = 0x00ffffff; interface = 1 }

abbrev pub wan : RouteTable
wan = record { prefix = 0x0000000a; next_hop = 0x0200000a; mask = 0x00ffffff; interface = 0 }

abbrev pub rtable : List RouteTable
rtable = wan ∷ lan ∷ []

abbrev pub env : Env
env = record {
  interface_ip = λ i. if i == 0 then 0x0100000a else 0x0101a8c0;
  interface_mac = λ i. 2 ∷ 0 ∷ 0 ∷ 0 ∷ 0 ∷ i ∷ [];
  getpid = 4242;
  hdr_addr = 4096;
  payload_addr = 8196;
  p_addr = 9000;
  dead_read = λ m. m;
}

abbrev pub ether : List ℕ → List ℕ → List ℕ
ether dhost shost = dhost ++ shost

abbrev pub neighbour : List ℕ
neighbour = 2 ∷ 0 ∷ 0 ∷ 0 ∷ 9 ∷ 9 ∷ []

abbrev pub here : List ℕ
here = 2 ∷ 0 ∷ 0 ∷ 0 ∷ 0 ∷ 0 ∷ []

abbrev pub sender : List ℕ
sender = 2 ∷ 0 ∷ 0 ∷ 0 ∷ 7 ∷ 7 ∷ []

-- From 10.0.0.2 to 192.168.1.5, with time to live 64.
abbrev pub ip_frame : List ℕ
ip_frame =
    here
    ++ (sender
        ++ (8 ∷ 0 ∷ 0x45 ∷ 0 ∷ 0 ∷ 28 ∷ 0 ∷ 1 ∷ 0 ∷ 0 ∷ 64 ∷ 6 ∷ 0xaf ∷ 0x2c ∷ 10 ∷ 0 ∷ 0 ∷ 2 ∷ 192
            ∷ 168 ∷ 1 ∷ 5 ∷ []))

abbrev pub ip_packet : Packet
ip_packet = record { len = 34; payload = payload ip_frame; interface = 0 }

-- The ARP reply of 192.168.1.5.
abbrev pub reply_frame : List ℕ
reply_frame =
    (2 ∷ 0 ∷ 0 ∷ 0 ∷ 0 ∷ 1 ∷ [])
    ++ (neighbour
        ++ (8 ∷ 6 ∷ 0 ∷ 1 ∷ 8 ∷ 0 ∷ 6 ∷ 4 ∷ 0 ∷ 2 ∷ neighbour
            ++ (192 ∷ 168 ∷ 1 ∷ 5 ∷ 2 ∷ 0 ∷ 0 ∷ 0 ∷ 0 ∷ 1 ∷ 192 ∷ 168 ∷ 1 ∷ 1 ∷ [])))

abbrev pub reply_packet : Packet
reply_packet = record { len = 42; payload = payload reply_frame; interface = 1 }

abbrev pub start : State fifo
start = record { arp_table = []; queue = fifo.create; slot = ip_packet }

pub start-IsRouter : IsRouter fifo env 0 start
start-IsRouter = record {
  table = record { distinct = tt; fits = omega arith };
  macs = tt;
  pending = fifo.create-Holds;
}

pub start-IsLive : IsLive fifo env rtable 0 start
start-IsLive = record { router = start-IsRouter; routed = λ h. absurd (omega arith) }

-- One packet waits for its neighbour.
abbrev pub busy : State fifo
busy = record {
  arp_table = [];
  queue = (record { head = 1; tail = 1 }, (1, some (record { element = 9000; next = 0 })) ∷ []);
  slot = ip_packet;
}

ip_packet-Routed : Routed rtable ip_packet
unfolding best_route get_best_route
ip_packet-Routed = (lan, refl)

pub busy-IsLive : IsLive fifo env rtable 1 busy
busy-IsLive = record {
  router = record {
    table = record { distinct = tt; fits = omega arith };
    macs = tt;
    pending = ((1, 9000) ∷ [], refl, last (omega arith) refl);
  };
  routed = λ h. ip_packet-Routed;
}

pub rtable-IsSorted : IsSorted rtable
unfolding comparator
rtable-IsSorted = record { in_order = in_order }
  where
    in_order :
        (i j : ℕ) (r s : RouteTable)
        → i ≤ j
        → get_elem? rtable i ≡ some r
        → get_elem? rtable j ≡ some s
        → NotAfter r s
    in_order zero zero r s h e f = ground arith
    in_order zero (suc zero) r s h e f = ground arith
    in_order zero (suc (suc j)) r s h e f = absurd (cc f)
    in_order (suc i) zero r s h e f = absurd (omega arith)
    in_order (suc zero) (suc zero) r s h e f = ground arith
    in_order (suc (suc i)) (suc zero) r s h e f = absurd (cc e)
    in_order (suc i) (suc (suc j)) r s h e f = absurd (cc f)
