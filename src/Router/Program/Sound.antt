-- ===== src/Router/Program/Sound.antt =====
-- The program of Tema_1/router.c from its start on: no undefined behaviour while the ARP table has
-- room, and frames by the three interfaces only.
use communication_protocols.Base.{
  ℕ, zero, suc, ◌+◌, ◌≤◌, ◌<◌, ◌≡◌, sym, subst, Option, some, List, [], ◌∷◌, map, arith, length,
}
use communication_protocols.Router.Route.{RouteTable}
use communication_protocols.Router.Arp.{capacity}
use communication_protocols.Router.Queue.Interface.{Fifo}
use communication_protocols.Router.Frames.{Packet}
use communication_protocols.Router.Main.{Env, State}
use communication_protocols.Router.Main.Arp.{Retains, IsLive}
use communication_protocols.Router.Main.Kept.{RoutesBelow}
use communication_protocols.Router.Setup.{table_size}
use communication_protocols.Router.Setup.Rows.{Row, Rows, table_text}
use communication_protocols.Router.Setup.Table.{row_entry}
use communication_protocols.Router.Setup.Lookup.{Sorts}
use communication_protocols.Router.Sockets.{
  Io, done, dies, waits, faults, interface_name, Calls, Wake, router_num_interfaces,
}
use communication_protocols.Router.Program.{
  Trace, stands, died, fault, with_names, loop, start, main,
}
use communication_protocols.Router.Program.Start.{Goes, Names, start-Goes}
use communication_protocols.Router.Program.Loop.{Wakes, replies_read, Sound, loop-Sound}

-- The routes of the file go out by the three interfaces, and so do those of the sorted table.
abbrev pub RowsBelow : ℕ → List Row → Type 0
RowsBelow k [] = Unit {0}
RowsBelow k (r ∷ rs) = (r.interface < k) × RowsBelow k rs

RowsBelow-entries :
    (inet_addr : List ℕ → ℕ) (k : ℕ) (rs : List Row)
    → RowsBelow k rs
    → RoutesBelow k (map (row_entry inet_addr) rs)
RowsBelow-entries inet_addr k [] h i r e = absurd (cc e)
RowsBelow-entries inet_addr k (q ∷ rs) h zero r e =
    let same : row_entry inet_addr q ≡ r = cc in subst (λ x. x.interface < k) same h.0
RowsBelow-entries inet_addr k (q ∷ rs) h (suc i) r e = RowsBelow-entries inet_addr k rs h.1 i r e

module _ (inet_addr : List ℕ → ℕ) (qsort : List RouteTable → List RouteTable) (calls : ℕ → Calls)
    (files : List ℕ → Option (List ℕ)) (program file : List ℕ) (names : List (List ℕ))
    (rs : List Row) where
  abbrev table : List RouteTable
  table = qsort (map (row_entry inet_addr) rs)

  -- The program is started with at most three names of interfaces, of less than sixteen characters, and
  -- a file of at most 100000 lines, each with three words that fit and the number of one of the three
  -- interfaces, and qsort gives the same entries in order; hardware addresses have six bytes. Whatever
  -- the system calls answer and whatever bytes are read, with at most ten ARP replies among them, no fault of
  -- the model is reached (a write behind a buffer or the tables, a NULL route, a fault of the queue or
  -- of the search), the program ends only in DIE or waits with the invariant of its loop, and all
  -- frames leave by one of the three interfaces. The read of the dead `p` is left out of this: if there
  -- is an ARP reply, it is taken to give the packet that was copied there last; without one, nothing is
  -- asked of it.
  pub main-Sound :
      (fifo : Fifo ℕ) (ip_of : List ℕ → ℕ) (mac_of : List ℕ → List ℕ) (env : Env) (p : Packet)
      (ws : List Wake)
      → Names names
      → length names ≤ router_num_interfaces
      → files file ≡ some (table_text rs)
      → Rows rs
      → length rs ≤ table_size
      → RowsBelow router_num_interfaces rs
      → Sorts qsort (map (row_entry inet_addr) rs)
      → (0 < replies_read ws → Retains env)
      → ((name : List ℕ) → length (mac_of name) ≡ 6)
      → Wakes ws
      → replies_read ws ≤ capacity
      → Sound fifo
          (with_names ip_of mac_of env)
          table
          router_num_interfaces
          (main inet_addr qsort calls files fifo ip_of mac_of env p (program ∷ file ∷ names) ws)
  unfolding main
  main-Sound fifo ip_of mac_of env p ws short few there rows fits below sorts retains six bytes
        replies =
      go (start inet_addr qsort calls files (program ∷ file ∷ names))
        (start-Goes inet_addr qsort calls files program file names rs short few there rows fits)
    where
      s : State fifo
      s = record { arp_table = []; queue = fifo.create; slot = p }

      live : IsLive fifo (with_names ip_of mac_of env) table 0 s
      live = record {
        router = record {
          table = record { distinct = tt; fits = omega arith };
          macs = tt;
          pending = fifo.create-Holds;
        };
        routed = λ h. absurd (omega arith);
      }

      sorted_below : RoutesBelow router_num_interfaces table
      sorted_below i r e =
          let (j, f) = (sorts.entries r).0 (i, e) in
          RowsBelow-entries inet_addr router_num_interfaces rs below j r f

      go :
          (o : Io (List ℕ × List RouteTable))
          → Goes (λ r. (length r.0 ≡ router_num_interfaces) × (r.1 ≡ table)) o
          → Sound fifo
              (with_names ip_of mac_of env)
              table
              router_num_interfaces
              (elim o as (λ _. Trace (State fifo)) [
                | dies ↦ died []
                | waits ↦ stands s []
                | faults ↦ fault
                | done (interfaces, rtable) ↦
                    loop fifo (with_names ip_of mac_of env) rtable interfaces (length ws + 1) s ws
              ])
      go dies h = tt
      go waits h = absurd h
      go faults h = absurd h
      go (done (interfaces, rtable)) (three, same) =
          let e : Env = with_names ip_of mac_of env in
          let below_all : RoutesBelow (length interfaces) table =
            subst (λ k. RoutesBelow k table) (sym three) sorted_below in
          subst
            (λ t.
              Sound fifo e table router_num_interfaces
                (loop fifo e t interfaces (length ws + 1) s ws))
            (sym same)
            (subst (λ k. Sound fifo e table k (loop fifo e table interfaces (length ws + 1) s ws))
              three
              (loop-Sound fifo e table interfaces (λ i. six (interface_name i)) below_all
                (length ws + 1) 0 s ws retains (omega arith) live bytes (omega arith)))
