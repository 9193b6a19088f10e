-- ===== src/Broker/State.antt =====
-- The data of the broker of Tema_2: the structs of utils.h, the maps of the server, and the events and
-- actions of a step. The bytes of a recv or recvfrom, the descriptor that accept gives and the text of
-- an address are parameters of the event.
use communication_protocols.Base.{ℕ, zero, suc, Bool, List, [], ◌∷◌, ltb, length}
use communication_protocols.CString.{c_text}
use communication_protocols.Broker.Map.{Map}

-- BUFLEN of helpers.h
abbrev pub buflen : ℕ
buflen = 1600

pub record Client : Type 0 where
  pub id : List ℕ
  pub connected : ℕ
  pub sf : ℕ
  pub fd : ℕ

-- struct tcp_msg_to_send; `msg_udp` is the bytes of struct udp_msg.
pub record TcpMsg : Type 0 where
  pub udp_cl_ip : List ℕ
  pub udp_cl_port : ℕ
  pub msg_udp : List ℕ

abbrev pub Topics : Type 0
Topics = Map (Map Client)

abbrev pub Holder : Type 0
Holder = Map (List TcpMsg)

pub record Server : Type 0 where
  pub topics_subs : Topics
  pub clients : Map Client
  pub msg_holder : Holder
  pub read_fds : List ℕ
  pub maxfd : ℕ

pub data Action : Type 0 where
  send : (fd : ℕ) → TcpMsg → Action
  print : List ℕ → Action
  close : (fd : ℕ) → Action

-- `stopped` is the end by exit, `died` is DIE, and `fault` is undefined behaviour.
pub data Outcome : Type 0 where
  running : Server → List Action → Outcome
  stopped died fault : Outcome

pub data Event : Type 0 where
  line : (buff : List ℕ) → Event
  datagram : (ip : List ℕ) (port : ℕ) (bytes : List ℕ) → Event
  request : (fd : ℕ) (ip : List ℕ) (port : ℕ) (bytes : List ℕ) → Event
  message : (fd : ℕ) (bytes : List ℕ) → Event
  recv_failed : Event

-- The string at the start of the buffer, which was set to 0 before the bytes were received, ends in
-- it.
abbrev pub terminated : List ℕ → Bool
terminated bytes = ltb (length (c_text bytes)) buflen

-- The first `n` bytes of such a buffer.
unfoldable pub padded : ℕ → List ℕ → List ℕ
padded zero bytes = []
padded (suc n) [] = 0 ∷ padded n []
padded (suc n) (b ∷ bytes) = b ∷ padded n bytes

-- memcpy(&msg_to_tcp.msg_udp, msg, sizeof(struct udp_msg))
unfoldable pub tcp_msg : (ip : List ℕ) (port : ℕ) (bytes : List ℕ) → TcpMsg
unfolding padded
tcp_msg ip port bytes = record { udp_cl_ip = ip; udp_cl_port = port; msg_udp = padded 1551 bytes }
