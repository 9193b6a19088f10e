-- ===== src/Broker/Server/Keeps.antt =====
-- Datagrams and connections of Tema_2/server.cpp keep the shape of the state.
use communication_protocols.Base.{
  ℕ, ◌≡◌, refl, inl, inr, ◌&&◌, Bool-cases, Option-cases, List, [], arith, ltb, ◌==◌, length,
}
use communication_protocols.CString.{c_text}
use communication_protocols.Broker.Map.{lookup, each}
use communication_protocols.Broker.Map.Laws.{each-IsUnique, insert-IsUnique}
use communication_protocols.Broker.Command.{drop_fd}
use communication_protocols.Broker.Connect.{
  connect_to, revive, reconnect, first_connection, on_request,
}
use communication_protocols.Broker.Publish.{on_datagram}
use communication_protocols.Broker.State.{
  Client, Server, Outcome, running, stopped, died, fault, terminated,
}
use communication_protocols.Broker.Server.WellFormed.{
  Watched-max, IsServer, each-IsClients, adjust-IsClients, insert-IsClients, insert-AllSubs,
  each-AllSubs,
}

-- The state behind an outcome, if the server goes on, is of that shape.
abbrev pub Keeps : Outcome → Type 0
Keeps (running s done) = IsServer s
Keeps stopped = Unit {0}
Keeps died = Unit {0}
Keeps fault = Unit {0}

pub drop_fd-id : (i : ℕ) (c : Client) → (drop_fd i c).id ≡ c.id
unfolding drop_fd
drop_fd-id i c = ground arith

revive-id : (id : List ℕ) (fd : ℕ) (c : Client) → (revive id fd c).id ≡ c.id
unfolding revive
revive-id id fd c = ground arith

pub on_datagram-Keeps :
    (s : Server) (ip : List ℕ) (port : ℕ) (bytes : List ℕ)
    → IsServer s
    → Keeps (on_datagram s ip port bytes)
unfolding on_datagram
on_datagram-Keeps s ip port bytes v = elim (Bool-cases (terminated bytes)) [
  | inr e ↦ rw e tt
  | inl e ↦ elim (Option-cases (lookup (c_text bytes) s.topics_subs)) [
    | inl f ↦
        rw (e, f)
          (record {
            clients = v.clients;
            subs = insert-AllSubs (c_text bytes) s.topics_subs v.subs;
            topics = insert-IsUnique (c_text bytes) [] s.topics_subs v.topics;
            watched = v.watched;
          })
    | inr (subs, f) ↦
        rw (e, f)
          (record { clients = v.clients; subs = v.subs; topics = v.topics; watched = v.watched })
  ]
]

reconnect-Keeps :
    (s : Server) (fd : ℕ) (id ip : List ℕ) (port : ℕ)
    → IsServer s
    → Keeps (reconnect s fd id ip port)
unfolding reconnect
reconnect-Keeps s fd id ip port v = record {
  clients = adjust-IsClients id (connect_to fd) s.clients (λ c. refl) v.clients;
  subs =
      each-AllSubs (each (revive id fd)) s.topics_subs
        (λ m. each-IsClients (revive id fd) m (revive-id id fd)) v.subs;
  topics = each-IsUnique (each (revive id fd)) s.topics_subs v.topics;
  watched = Watched-max fd s.read_fds s.maxfd v.watched;
}

first_connection-Keeps :
    (s : Server) (fd : ℕ) (id ip : List ℕ) (port : ℕ)
    → IsServer s
    → Keeps (first_connection s fd id ip port)
unfolding first_connection
first_connection-Keeps s fd id ip port v = record {
  clients = insert-IsClients id _ s.clients refl v.clients;
  subs = v.subs;
  topics = v.topics;
  watched = Watched-max fd s.read_fds s.maxfd v.watched;
}

pub on_request-Keeps :
    (s : Server) (fd : ℕ) (ip : List ℕ) (port : ℕ) (bytes : List ℕ)
    → IsServer s
    → Keeps (on_request s fd ip port bytes)
unfolding on_request
on_request-Keeps s fd ip port bytes v =
    elim (Bool-cases (terminated bytes && ltb (length (c_text bytes)) 10)) [
      | inr e ↦ rw e tt
      | inl e ↦ elim (Option-cases (lookup (c_text bytes) s.clients)) [
        | inl f ↦ rw (e, f) (first_connection-Keeps s fd (c_text bytes) ip port v)
        | inr (c, f) ↦ elim (Bool-cases (c.connected == 0)) [
          | inl g ↦ rw (e, f, g) (reconnect-Keeps s fd (c_text bytes) ip port v)
          | inr g ↦ rw (e, f, g) v
        ]
      ]
    ]
