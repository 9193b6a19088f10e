-- ===== src/Broker/Start.antt =====
-- What Tema_2/server.cpp does before its loop: the argument, the sockets, and the first state. What the
-- system calls answer is a parameter. DIE and exit(1) end the program.
use communication_protocols.Base.{
  ℕ, ◌%◌, ◌^◌, ◌≤◌, ◌≡◌, Bool, true, false, Bool-cases, Option-cases, inl, inr, Option, none, some,
  List, [], ◌∷◌, ◌==◌, if◌then◌else◌, arith,
}
use communication_protocols.CString.{atoi}
use communication_protocols.Broker.State.{Server, Event, Outcome, running, stopped, died, fault}
use communication_protocols.Broker.Server.{run}
use communication_protocols.Broker.Server.WellFormed.{IsServer}
use communication_protocols.Broker.Server.Step.{run-IsServer}
use communication_protocols.Broker.Server.Keeps.{Keeps}

-- socket gives a descriptor, or -1. The others succeed or fail, bind for the port.
pub record Sockets : Type 0 where
  pub udp : Option ℕ
  pub tcp : Option ℕ
  pub binds_udp : ℕ → Bool
  pub binds_tcp : ℕ → Bool
  pub listens : Bool

-- The empty maps, and the descriptors of the two sockets and of the standard input.
unfoldable pub first_state : (udp tcp : ℕ) → Server
first_state udp tcp = record {
  topics_subs = [];
  clients = [];
  msg_holder = [];
  read_fds = 0 ∷ udp ∷ tcp ∷ [];
  maxfd = tcp;
}

-- `argv` with the name of the program; the argument behind the last one is NULL.
unfoldable pub start : (argv : List (List ℕ)) → Sockets → Outcome
unfolding atoi first_state
start [] sys = died
start (name ∷ []) sys = fault
start (name ∷ arg ∷ argv) sys =
    let port : ℕ = atoi arg % 2 ^ 16 in
    if atoi arg == 0 then died else (elim sys.udp [
      | none ↦ died
      | some udp ↦ elim sys.tcp [
        | none ↦ died
        | some tcp ↦
            if sys.binds_udp port
            then (if sys.binds_tcp port
                then (if sys.listens then running (first_state udp tcp) [] else died)
                else died)
            else died
      ]
    ])

-- The program: the start, and the loop over the events.
unfoldable pub serve : (argv : List (List ℕ)) → Sockets → List Event → Outcome
unfolding start run
serve argv sys es = elim (start argv sys) [
  | running s done ↦ run s es
  | stopped ↦ stopped
  | died ↦ died
  | fault ↦ fault
]

first_state-IsServer : (udp tcp : ℕ) → udp ≤ tcp → IsServer (first_state udp tcp)
unfolding first_state
first_state-IsServer udp tcp h = record {
  clients = record { keyed = tt; unique = tt };
  subs = tt;
  topics = tt;
  watched = (omega arith, (h, (omega arith, tt)));
}

opened :
    (a b c : Bool) (s : Server)
    → IsServer s
    → Keeps (if a then (if b then (if c then running s [] else died) else died) else died)
opened true true true s v = v
opened true true false s v = tt
opened true false c s v = tt
opened false b c s v = tt

module _ (sys : Sockets)
    (rising : (udp tcp : ℕ) → sys.udp ≡ some udp → sys.tcp ≡ some tcp → udp ≤ tcp) where
  start-Keeps : (argv : List (List ℕ)) → Keeps (start argv sys)
  unfolding start
  start-Keeps [] = tt
  start-Keeps (name ∷ []) = tt
  start-Keeps (name ∷ arg ∷ argv) = elim (Bool-cases (atoi arg == 0)) [
    | inl e ↦ rw (e, start) tt
    | inr e ↦ elim (Option-cases sys.udp) [
      | inl f ↦ rw (e, f, start) tt
      | inr (udp, f) ↦ elim (Option-cases sys.tcp) [
        | inl g ↦ rw (e, f, g, start) tt
        | inr (tcp, g) ↦
            rw (start, e, f, g)
              (opened (sys.binds_udp (atoi arg % 2 ^ 16)) (sys.binds_tcp (atoi arg % 2 ^ 16))
                sys.listens (first_state udp tcp)
                (first_state-IsServer udp tcp (rising udp tcp f g)))
      ]
    ]
  ]

  -- If the second socket gets a descriptor that is not below the first one's, then whatever the
  -- arguments and the events are, as long as the server goes on, no topic, client or subscription
  -- stands twice in its maps, a client stands under its own id, in `clients` and in every topic, and the
  -- call of select covers every descriptor of the read set.
  pub serve-Keeps : (argv : List (List ℕ)) (es : List Event) → Keeps (serve argv sys es)
  unfolding serve
  serve-Keeps argv es = onwards (start argv sys) (start-Keeps argv)
    where
      onwards :
          (o : Outcome)
          → Keeps o
          → Keeps (elim o as (λ _. Outcome) [
            | running s done ↦ run s es
            | stopped ↦ stopped
            | died ↦ died
            | fault ↦ fault
          ])
      onwards (running s done) v = run-IsServer s es v
      onwards stopped v = tt
      onwards died v = tt
      onwards fault v = tt
