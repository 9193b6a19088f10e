-- ===== src/Router/Program/Loop.antt =====
-- The loop of Tema_1/router.c over what get_packet receives: no undefined behaviour while the ARP table
-- has room, and frames by the interfaces that the program has only.
use communication_protocols.Base.{
  ℕ, zero, suc, ◌+◌, ◌≤◌, ◌<◌, ◌≡◌, subst, Bool, true, none, some, List, [], ◌∷◌, ◌++◌, arith,
  if◌then◌else◌, length, get_elem?,
}
use communication_protocols.Router.Bytes.{IsBytes, AllBytes, store}
use communication_protocols.Router.Bytes.Store.{IsBytes-store}
use communication_protocols.Router.Route.{RouteTable}
use communication_protocols.Router.Arp.{capacity}
use communication_protocols.Router.Queue.Interface.{Fifo}
use communication_protocols.Router.Frames.{Packet, Sent}
use communication_protocols.Router.Main.{Env, State, round}
use communication_protocols.Router.Main.Arp.{Retains, IsLive}
use communication_protocols.Router.Main.Kept.{is_reply, SentBelow, RoutesBelow}
use communication_protocols.Router.Main.Trace.{round-Kept}
use communication_protocols.Router.Sockets.{Io, done, dies, waits, faults, Wake, get_packet}
use communication_protocols.Router.Sockets.Receive.{Received, GetOutcome, get_packet-GetOutcome}
use communication_protocols.Router.Program.{Trace, stands, died, fault, out_of_fuel, behind, loop}

-- Memory and what is read are bytes.
abbrev pub IsWake : Wake → Type 0
IsWake w = IsBytes w.payload × ((bytes : List ℕ) → w.bytes ≡ some bytes → AllBytes bytes)

abbrev pub Wakes : List Wake → Type 0
Wakes [] = Unit {0}
Wakes (w ∷ ws) = IsWake w × Wakes ws

-- A read that the loop takes for an ARP reply, and how many there are.
abbrev pub reply_read : Wake → ℕ
reply_read w = elim w.bytes [
  | none ↦ 0
  | some bytes ↦
      if is_reply (record { len = 0; payload = store w.payload 0 bytes; interface = 0 })
      then 1
      else 0
]

abbrev pub replies_read : List Wake → ℕ
replies_read [] = 0
replies_read (w ∷ ws) = reply_read w + replies_read ws

Wakes-append : (idle ws : List Wake) → Wakes (idle ++ ws) → Wakes ws
Wakes-append [] ws h = h
Wakes-append (w ∷ idle) ws h = Wakes-append idle ws h.1

replies_read-append : (idle ws : List Wake) → replies_read ws ≤ replies_read (idle ++ ws)
replies_read-append [] ws = omega arith
replies_read-append (w ∷ idle) ws = omega (arith, replies_read-append idle ws)

length-rest :
    (idle : List Wake) (w : Wake) (rest : List Wake) → length rest < length (idle ++ (w ∷ rest))
length-rest [] w rest = omega arith
length-rest (v ∷ idle) w rest = omega (arith, length-rest idle w rest)

get_elem?-lt : (xs : List ℕ) (i x : ℕ) → get_elem? xs i ≡ some x → i < length xs
get_elem?-lt [] i x e = absurd (cc e)
get_elem?-lt (y ∷ xs) zero x e = omega arith
get_elem?-lt (y ∷ xs) (suc i) x e = omega (arith, get_elem?-lt xs i x e)

SentBelow-append :
    (k : ℕ) (fs gs : List Sent) → SentBelow k fs → SentBelow k gs → SentBelow k (fs ++ gs)
SentBelow-append k [] gs h g = g
SentBelow-append k (f ∷ fs) gs (h, more) g = (h, SentBelow-append k fs gs more g)

module _ (interfaces : List ℕ) (w : Wake) (m : Packet) (got : Received interfaces w m) where
  Received-IsBytes : IsWake w → IsBytes m.payload
  Received-IsBytes (memory, read) =
      rw got.payload (IsBytes-store w.payload 0 got.bytes memory (read got.bytes got.read))

  Received-reply : (if is_reply m then 1 else 0) ≡ reply_read w
  Received-reply = rw (got.payload, got.read)

  Received-lt : m.interface < length interfaces
  Received-lt = get_elem?-lt interfaces m.interface got.first.descriptor got.first.here

module _ (fifo : Fifo ℕ) (env : Env) (rtable : List RouteTable) where
  -- The invariant of the loop while the program waits, and frames by the interfaces below `k` only.
  abbrev pub Sound : (k : ℕ) → Trace (State fifo) → Type 0
  Sound k (stands s sent) = ((n : ℕ) × IsLive fifo env rtable n s) × SentBelow k sent
  Sound k (died sent) = SentBelow k sent
  Sound k fault = ⊥
  Sound k out_of_fuel = ⊥

  behind-Sound :
      (k : ℕ) (sent : List Sent) (t : Trace (State fifo))
      → SentBelow k sent
      → Sound k t
      → Sound k (behind sent t)
  unfolding behind
  behind-Sound k sent (stands s more) h (live, g) = (live, SentBelow-append k sent more h g)
  behind-Sound k sent (died more) h g = SentBelow-append k sent more h g
  behind-Sound k sent fault h g = g
  behind-Sound k sent out_of_fuel h g = g

room_for :
    (b : Bool) (entries first others : ℕ)
    → (if b then 1 else 0) ≡ first
    → entries + (first + others) ≤ capacity
    → b ≡ true
    → entries < capacity
room_for b entries first others counted few reply = ground arith

some_reply :
    (b : Bool) (first others : ℕ) → (if b then 1 else 0) ≡ first → b ≡ true → 0 < first + others
some_reply b first others counted reply = ground arith

module _ (fifo : Fifo ℕ) (env : Env) (rtable : List RouteTable) (interfaces : List ℕ)
    (six : (i : ℕ) → length (env.interface_mac i) ≡ 6)
    (below : RoutesBelow (length interfaces) rtable) where
  pub loop-Sound :
      (fuel n : ℕ) (s : State fifo) (ws : List Wake)
      → (0 < replies_read ws → Retains env)
      → length ws < fuel
      → IsLive fifo env rtable n s
      → Wakes ws
      → length s.arp_table + replies_read ws ≤ capacity
      → Sound fifo env rtable (length interfaces) (loop fifo env rtable interfaces fuel s ws)
  unfolding loop
  loop-Sound zero n s ws retains enough live bytes few = absurd (omega arith)
  loop-Sound (suc fuel) n s ws retains enough live bytes few =
      go (get_packet interfaces ws) (get_packet-GetOutcome interfaces ws) (loop-Sound fuel)
    where
      go :
          (o : Io (Packet × List Wake))
          → GetOutcome interfaces ws o
          → ((n : ℕ) (s : State fifo) (ws : List Wake)
              → (0 < replies_read ws → Retains env)
              → length ws < fuel
              → IsLive fifo env rtable n s
              → Wakes ws
              → length s.arp_table + replies_read ws ≤ capacity
              → Sound fifo env rtable
                  (length interfaces)
                  (loop fifo env rtable interfaces fuel s ws))
          → Sound fifo env rtable (length interfaces) (elim o as (λ _. Trace (State fifo)) [
            | dies ↦ died []
            | waits ↦ stands s []
            | faults ↦ fault
            | done (m, rest) ↦ elim (round fifo env rtable s m) [
              | none ↦ fault
              | some (s', sent) ↦ behind sent (loop fifo env rtable interfaces fuel s' rest)
            ]
          ])
      go dies h later = tt
      go waits h later = ((n, live), tt)
      go faults h later = h
      go (done (m, rest)) (idle, w, form, quiet, got) later =
          let both : Wakes (w ∷ rest) = Wakes-append idle (w ∷ rest) (subst Wakes form bytes) in
          let few_all : length s.arp_table + replies_read (idle ++ (w ∷ rest)) ≤ capacity =
            subst (λ l. length s.arp_table + replies_read l ≤ capacity) form few in
          let few_here : length s.arp_table + (reply_read w + replies_read rest) ≤ capacity =
            omega (arith, few_all, replies_read-append idle (w ∷ rest)) in
          let counted : (if is_reply m then 1 else 0) ≡ reply_read w =
            Received-reply interfaces w m got in
          let kept_here : 0 < reply_read w + replies_read rest → Retains env = λ h.
            let more : 0 < replies_read (idle ++ (w ∷ rest)) =
              omega (arith, h, replies_read-append idle (w ∷ rest)) in
            subst (λ l. 0 < replies_read l → Retains env) form retains more in
          let shorter : length rest < fuel =
            let all : length (idle ++ (w ∷ rest)) < suc fuel =
              subst (λ l. length l < suc fuel) form enough in
            omega (arith, all, length-rest idle w rest) in
          let (s', sent, ok, kept) =
            round-Kept fifo env rtable six n s m live (Received-IsBytes interfaces w m got both.0)
              (λ reply. (
                kept_here
                    (some_reply (is_reply m) (reply_read w) (replies_read rest) counted reply),
                room_for (is_reply m) (length s.arp_table) (reply_read w) (replies_read rest)
                    counted few_here reply,
              )) in
          rw ok (
            behind-Sound fifo env rtable (length interfaces) sent
              (loop fifo env rtable interfaces fuel s' rest)
              (kept.leaves (length interfaces) (Received-lt interfaces w m got) below)
              (later kept.n' s' rest (λ h. kept_here (omega arith)) shorter kept.live both.1
                (omega (arith, few_here, counted, kept.grown))))
