-- ===== src/Broker/Server.antt =====
-- The server of Tema_2/server.cpp: what it does with each ready descriptor that select reports. A
-- step takes the state and gives the new one with what is sent, printed and closed, in order. The
-- bytes of a recv or recvfrom, the descriptor that accept gives and the text of an address are
-- parameters of the event. Publish, Connect and Command are its branches.
pub mod WellFormed
pub mod Keeps
pub mod Messages
pub mod Step
pub mod Delivery
pub mod Runs
pub mod Away
pub mod Descriptors
pub mod Words
pub mod Commands
use communication_protocols.Base.{
  ℕ, zero, suc, ◌+◌, Bool, true, false, ◌&&◌, Option, none, some, List, [], ◌∷◌, ◌++◌, map, ltb,
  ◌==◌, if◌then◌else◌, length, max, codes,
}
use communication_protocols.CString.{same, is_prefix, strtok, decimal, c_text}
use communication_protocols.Broker.Map.{Map, lookup, has, insert, adjust, each, erase, find_if}
use communication_protocols.Broker.State.{
  buflen, Client, TcpMsg, Topics, Holder, Server, Action, send, print, close, Outcome, running,
  stopped, died, fault, Event, line, datagram, request, message, recv_failed, terminated, padded,
  tcp_msg,
}
use communication_protocols.Broker.Publish.{on_datagram}
use communication_protocols.Broker.Connect.{on_request}
use communication_protocols.Broker.Command.{on_message}

-- A line of the standard input that is not exit is followed by a recv on it, which fails, since it is
-- no socket.
unfoldable pub step : Server → Event → Outcome
unfolding on_datagram on_request on_message
step s (line buff) = if same buff (codes "exit\n") then stopped else died
step s (datagram ip port bytes) = on_datagram s ip port bytes
step s (request fd ip port bytes) = on_request s fd ip port bytes
step s (message fd bytes) = on_message s fd bytes
step s recv_failed = died

-- What a run has done so far, and how it goes on.
unfoldable pub prepend : List Action → Outcome → Outcome
prepend done (running s more) = running s (done ++ more)
prepend done stopped = stopped
prepend done died = died
prepend done fault = fault

unfoldable pub run : Server → List Event → Outcome
unfolding step prepend
run s [] = running s []
run s (e ∷ es) = elim (step s e) [
  | running s' done ↦ prepend done (run s' es)
  | stopped ↦ stopped
  | died ↦ died
  | fault ↦ fault
]
