-- ===== src/Broker/Tests/Data.antt =====
-- States of the server of Tema_2, and a datagram, for the tests.
use communication_protocols.Base.{ℕ, refl, List, [], ◌∷◌, ◌++◌, arith, codes}
use communication_protocols.Broker.Map.{lookup}
use communication_protocols.Broker.State.{Client, Server, padded}
use communication_protocols.Broker.Server.WellFormed.{IsServer, Watched, IsClients}

abbrev pub empty : Server
empty = record { topics_subs = []; clients = []; msg_holder = []; read_fds = []; maxfd = 4 }

abbrev pub ann : Client
ann = record { id = codes "ann"; connected = 0; sf = b'1'; fd = 5 }

abbrev pub bob : Client
bob = record { id = codes "bob"; connected = 1; sf = b'0'; fd = 6 }

-- Ann subscribed to the news with store and forward and is away; Bob is here.
abbrev pub server : Server
server = record {
  topics_subs = (codes "news", (codes "ann", ann) ∷ (codes "bob", bob) ∷ []) ∷ [];
  clients = (codes "ann", ann) ∷ (codes "bob", bob) ∷ [];
  msg_holder = (codes "ann", []) ∷ (codes "bob", []) ∷ [];
  read_fds = 6 ∷ [];
  maxfd = 6;
}

two-IsClients : IsClients ((codes "ann", ann) ∷ (codes "bob", bob) ∷ [])
unfolding lookup
two-IsClients = record { keyed = (refl, (refl, tt)); unique = (refl, (refl, tt)) }

two-Watched : Watched server.read_fds server.maxfd
two-Watched = (omega arith, tt)

pub server-IsServer : IsServer server
unfolding lookup
server-IsServer = record {
  clients = two-IsClients;
  subs = (two-IsClients, tt);
  topics = (refl, tt);
  watched = two-Watched;
}

-- The news: the topic, the type INT, the sign, and 258 in network order.
abbrev pub news : List ℕ
news = padded 50 (codes "news") ++ (0 ∷ 1 ∷ 0 ∷ 0 ∷ 1 ∷ 2 ∷ [])

abbrev pub ip : List ℕ
ip = codes "10.0.0.1"

-- Bob has the descriptor that Ann had.
abbrev pub reused : Server
reused = record server { clients = (codes "ann", ann) ∷ (codes "bob", record bob { fd = 5 }) ∷ [] }
