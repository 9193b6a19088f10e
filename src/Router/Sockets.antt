-- ===== src/Router/Sockets.antt =====
-- The sockets of Tema_1/skel.c: init and get_sock, get_packet and socket_receive_message, and the
-- names of the interfaces. What a system call answers is a parameter; -1 is `none`. DIE ends the
-- program.
pub mod Receive
use communication_protocols.Base.{
  ℕ, zero, suc, ◌+◌, ◌-◌, Bool, true, false, Option, none, some, List, [], ◌∷◌, ◌++◌, ltb, ◌==◌,
  if◌then◌else◌, length, codes,
}
use communication_protocols.CString.{decimal}
use communication_protocols.Router.Bytes.{Payload, store}
use communication_protocols.Router.Frames.{Packet}

-- A call that goes through, one that ends the program, one that waits for ever, and undefined
-- behaviour.
pub data Io (A : Type 0) : Type 0 where
  done : A → Io A
  dies waits faults : Io A

infixl 5 ◌>>=◌
abbrev pub ◌>>=◌ : {A B : Type 0} → Io A → (A → Io B) → Io B
done a >>= f = f a
dies >>= f = dies
waits >>= f = waits
faults >>= f = faults

abbrev pub from : {A : Type 0} → (otherwise : Io A) → Option A → Io A
from otherwise none = otherwise
from otherwise (some a) = done a

-- ROUTER_NUM_INTERFACES, and IFNAMSIZ of the system
abbrev pub router_num_interfaces : ℕ
router_num_interfaces = 3

abbrev pub ifnamsiz : ℕ
ifnamsiz = 16

-- The calls of get_sock: socket, SIOCGIFINDEX for a name, and bind to an index.
pub record Calls : Type 0 where
  pub socket : Option ℕ
  pub ifindex : List ℕ → Option ℕ
  pub binds : (s index : ℕ) → Bool

-- The name is copied into the sixteen bytes of ifr_name.
unfoldable pub get_sock : Calls → List ℕ → Io ℕ
get_sock sys name = do
  s ← from dies sys.socket
  index ← (if ltb (length name) ifnamsiz then from dies (sys.ifindex name) else faults)
  if sys.binds s index then done s else dies

-- The loop from interfaces[i] on; the calls of its rounds are those of `sys`.
unfoldable pub init_from : (sys : ℕ → Calls) → ℕ → List (List ℕ) → Io (List ℕ)
unfolding get_sock
init_from sys i [] = done []
init_from sys i (name ∷ names) = do
  s ← get_sock (sys i) name
  elim (ltb i router_num_interfaces) as (λ _. Io (List ℕ)) [
    | false ↦ faults
    | true ↦ do rest ← init_from sys (i + 1) names; done (s ∷ rest)
  ]

-- The array `interfaces`, which is 0 where nothing was stored.
unfoldable pub fill : ℕ → List ℕ → List ℕ
fill zero opened = []
fill (suc n) [] = 0 ∷ fill n []
fill (suc n) (s ∷ opened) = s ∷ fill n opened

unfoldable pub init : (sys : ℕ → Calls) → List (List ℕ) → Io (List ℕ)
unfolding init_from fill
init sys argv = do opened ← init_from sys 0 argv; done (fill router_num_interfaces opened)

-- What select and the read behind it answer: the descriptors that are ready, and the bytes.
-- `payload` is what the packet held before.
pub record Wake : Type 0 where
  pub ready : Option (ℕ → Bool)
  pub bytes : Option (List ℕ)
  pub payload : Payload

-- FD_ISSET for interfaces[i] on.
unfoldable pub first_ready : (ℕ → Bool) → ℕ → List ℕ → Option ℕ
first_ready set i [] = none
first_ready set i (s ∷ interfaces) =
    let rest = first_ready set (i + 1) interfaces in if set s then some i else rest

unfoldable pub socket_receive_message : Wake → (interface : ℕ) → Io Packet
socket_receive_message w interface = do
  bytes ← from dies w.bytes
  done (record { len = length bytes; payload = store w.payload 0 bytes; interface = interface })

-- The packet, and the answers that are left.
unfoldable pub get_packet : (interfaces : List ℕ) → List Wake → Io (Packet × List Wake)
unfolding first_ready socket_receive_message
get_packet interfaces [] = waits
get_packet interfaces (w ∷ ws) = elim w.ready [
  | none ↦ dies
  | some set ↦ elim (first_ready set 0 interfaces) [
    | none ↦ get_packet interfaces ws
    | some i ↦ do m ← socket_receive_message w i; done (m, ws)
  ]
]

-- ifr_name in get_interface_ip and get_interface_mac
unfoldable pub interface_name : ℕ → List ℕ
interface_name interface =
    if interface == 0 then codes "rr-0-1" else codes "r-" ++ decimal (interface - 1)
