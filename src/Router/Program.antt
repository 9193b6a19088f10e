-- ===== src/Router/Program.antt =====
-- The program of Tema_1/router.c: the interfaces, the routing table, and the loop over what get_packet
-- receives. The files, the system calls, inet_addr and qsort are parameters. The loop runs on fuel, one
-- round for each answer of select and one more.
pub mod Start
pub mod Loop
pub mod Sound
use communication_protocols.Base.{
  ℕ, zero, suc, ◌+◌, Option, none, some, List, [], ◌∷◌, ◌++◌, length, drop, get_elem?,
}
use communication_protocols.Router.Route.{RouteTable}
use communication_protocols.Router.Queue.Interface.{Fifo}
use communication_protocols.Router.Frames.{Packet, Sent}
use communication_protocols.Router.Main.{Env, State, round}
use communication_protocols.Router.Setup.{set_up}
use communication_protocols.Router.Sockets.{
  Io, done, dies, waits, faults, ◌>>=◌, from, Calls, init, Wake, get_packet, interface_name,
}

-- The addresses of the interfaces, which the system knows by their names.
abbrev pub with_names : (ip_of : List ℕ → ℕ) (mac_of : List ℕ → List ℕ) → Env → Env
with_names ip_of mac_of env = record env {
  interface_ip = λ i. ip_of (interface_name i);
  interface_mac = λ i. mac_of (interface_name i);
}

-- How far the program comes: it waits for a packet, DIE ended it, or undefined behaviour; with the
-- frames that were sent.
pub data Trace (S : Type 0) : Type 0 where
  stands : S → List Sent → Trace S
  died : List Sent → Trace S
  fault out_of_fuel : Trace S

unfoldable pub behind : {S : Type 0} → List Sent → Trace S → Trace S
behind sent (stands s more) = stands s (sent ++ more)
behind sent (died more) = died (sent ++ more)
behind sent fault = fault
behind sent out_of_fuel = out_of_fuel

-- while (1) { get_packet(&m); … }
module _ (fifo : Fifo ℕ) (env : Env) (rtable : List RouteTable) (interfaces : List ℕ) where
  unfoldable pub loop : (fuel : ℕ) → State fifo → List Wake → Trace (State fifo)
  unfolding get_packet round behind
  loop zero s ws = out_of_fuel
  loop (suc fuel) s ws = elim (get_packet interfaces ws) [
    | dies ↦ died []
    | waits ↦ stands s []
    | faults ↦ fault
    | done (m, rest) ↦ elim (round fifo env rtable s m) [
      | none ↦ fault
      | some (s', sent) ↦ behind sent (loop fuel s' rest)
    ]
  ]

-- The calls before the loop; `calls` are those for each interface, and `files` the texts of the files.
module _ (inet_addr : List ℕ → ℕ) (qsort : List RouteTable → List RouteTable) (calls : ℕ → Calls)
    (files : List ℕ → Option (List ℕ)) where
  unfoldable pub start : (argv : List (List ℕ)) → Io (List ℕ × List RouteTable)
  unfolding init set_up
  start argv = do
    interfaces ← init calls (drop 2 argv)
    name ← from faults (get_elem? argv 1)
    text ← from faults (files name)
    rtable ← from faults (set_up inet_addr qsort text)
    done (interfaces, rtable)

  -- `p` is what the storage of the local holds at first.
  unfoldable pub main :
      (fifo : Fifo ℕ) (ip_of : List ℕ → ℕ) (mac_of : List ℕ → List ℕ) (env : Env) (p : Packet)
      (argv : List (List ℕ))
      → List Wake
      → Trace (State fifo)
  unfolding start loop interface_name
  main fifo ip_of mac_of env p argv ws =
      let s : State fifo = record { arp_table = []; queue = fifo.create; slot = p } in
      elim (start argv) [
        | dies ↦ died []
        | waits ↦ stands s []
        | faults ↦ fault
        | done (interfaces, rtable) ↦
            loop fifo (with_names ip_of mac_of env) rtable interfaces (length ws + 1) s ws
      ]
