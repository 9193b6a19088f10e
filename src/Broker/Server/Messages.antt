-- ===== src/Broker/Server/Messages.antt =====
-- The messages of the clients of Tema_2/server.cpp keep the shape of the state.
use communication_protocols.Base.{
  ℕ, ◌≡◌, refl, inl, inr, Bool-cases, Option-cases, Option, none, some, List, [], ◌∷◌, ltb, length,
  codes,
}
use communication_protocols.CString.{is_prefix, strtok, c_text}
use communication_protocols.Broker.Map.{lookup, insert, adjust, each, erase, find_if}
use communication_protocols.Broker.Map.Laws.{
  IsUnique, each-IsUnique, adjust-IsUnique, insert-IsUnique, find_if-lookup,
}
use communication_protocols.Broker.Command.{
  has_fd, disconnected, drop_fd, disconnect, unsubscribe, set_sf, subscribe, on_command, on_message,
}
use communication_protocols.Broker.State.{
  Client, Topics, Server, Outcome, running, fault, terminated,
}
use communication_protocols.Broker.Server.WellFormed.{
  AllSubs, Watched-unwatch, IsServer, lookup-id, each-IsClients, adjust-IsClients, insert-IsClients,
  erase-IsClients, insert-AllSubs, adjust-AllSubs, each-AllSubs,
}
use communication_protocols.Broker.Server.Keeps.{Keeps, drop_fd-id}

dropped-AllSubs :
    (s : Server) (i : ℕ) → IsServer s → AllSubs (each (each (drop_fd i)) s.topics_subs)
dropped-AllSubs s i v =
    each-AllSubs (each (drop_fd i)) s.topics_subs (λ m. each-IsClients (drop_fd i) m (drop_fd-id i))
      v.subs

disconnect-Keeps : (s : Server) (i : ℕ) → IsServer s → Keeps (disconnect s i)
unfolding disconnect
disconnect-Keeps s i v = elim (Option-cases (find_if (has_fd i) s.clients)) [
  | inl e ↦
      rw (e, disconnect)
        (record {
          clients = v.clients;
          subs = dropped-AllSubs s i v;
          topics = each-IsUnique (each (drop_fd i)) s.topics_subs v.topics;
          watched = Watched-unwatch i s.read_fds s.maxfd v.watched;
        })
  | inr ((k, c), e) ↦
      rw (e, disconnect)
        (record {
          clients = adjust-IsClients k disconnected s.clients (λ c. refl) v.clients;
          subs = dropped-AllSubs s i v;
          topics = each-IsUnique (each (drop_fd i)) s.topics_subs v.topics;
          watched = Watched-unwatch i s.read_fds s.maxfd v.watched;
        })
]

unsubscribe-IsServer :
    (s : Server) (i : ℕ) (topic : List ℕ) → IsServer s → IsServer (unsubscribe s i topic)
unfolding unsubscribe
unsubscribe-IsServer s i topic v =
    let topics : Topics = insert topic [] s.topics_subs in
    let all : AllSubs topics = insert-AllSubs topic s.topics_subs v.subs in
    let once : IsUnique topics = insert-IsUnique topic [] s.topics_subs v.topics in
    elim (Option-cases (lookup topic topics)) [
      | inl e ↦
          rw e (record { clients = v.clients; subs = all; topics = once; watched = v.watched })
      | inr (subs, e) ↦ elim (Option-cases (find_if (has_fd i) subs)) [
        | inl f ↦
            rw (e, f)
              (record { clients = v.clients; subs = all; topics = once; watched = v.watched })
        | inr ((k, c), f) ↦
            rw (e, f)
              (record {
                clients = v.clients;
                subs = adjust-AllSubs topic (erase k) topics (erase-IsClients k) all;
                topics = adjust-IsUnique topic (erase k) topics once;
                watched = v.watched;
              })
      ]
    ]

subscribe-Keeps :
    (s : Server) (i : ℕ) (topic : List ℕ) (sf : Option (List ℕ))
    → IsServer s
    → Keeps (subscribe s i topic sf)
unfolding subscribe
subscribe-Keeps s i topic sf v =
    let topics : Topics = insert topic [] s.topics_subs in
    let all : AllSubs topics = insert-AllSubs topic s.topics_subs v.subs in
    let once : IsUnique topics = insert-IsUnique topic [] s.topics_subs v.topics in
    elim (Option-cases (find_if (has_fd i) s.clients)) [
      | inl e ↦
          rw (e, subscribe, Keeps)
            (record { clients = v.clients; subs = all; topics = once; watched = v.watched })
      | inr ((k, c), e) ↦
          let id : c.id ≡ k =
            lookup-id s.clients k c v.clients.keyed
              (find_if-lookup (has_fd i) s.clients k c v.clients.unique e).0 in
          rw (e, subscribe, Keeps) (sf_cases topics all once k c id sf)
    ]
  where
    sf_cases :
        (topics : Topics)
        → AllSubs topics
        → IsUnique topics
        → (k : List ℕ) (c : Client) → c.id ≡ k
        → (sf : Option (List ℕ))
        → Keeps (elim sf as (λ _. Outcome) [
          | none ↦ fault
          | some [] ↦ fault
          | some (b ∷ bs) ↦
              running
                (record s {
                  clients = adjust k (set_sf b) s.clients;
                  topics_subs = adjust topic (insert k (set_sf b c)) topics;
                })
                []
        ])
    sf_cases topics all once k c id none = tt
    sf_cases topics all once k c id (some []) = tt
    sf_cases topics all once k c id (some (b ∷ bs)) = record {
      clients = adjust-IsClients k (set_sf b) s.clients (λ c. refl) v.clients;
      subs =
          adjust-AllSubs topic (insert k (set_sf b c)) topics
            (λ m h. insert-IsClients k (set_sf b c) m id h) all;
      topics = adjust-IsUnique topic (insert k (set_sf b c)) topics once;
      watched = v.watched;
    }

on_command-Keeps : (s : Server) (i : ℕ) (text : List ℕ) → IsServer s → Keeps (on_command s i text)
unfolding on_command
on_command-Keeps s i text v =
    let first : Option (List ℕ) × List ℕ = strtok (codes " ") text in
    let second : Option (List ℕ) × List ℕ = strtok (codes " ") first.1 in
    elim (Option-cases first.0) [
      | inl e ↦ rw (e, on_command) tt
      | inr (word, e) ↦ elim (Option-cases second.0) [
        | inl f ↦ rw (e, on_command, f) tt
        | inr (topic, f) ↦ elim (Bool-cases (is_prefix (codes "unsubscribe") word)) [
          | inl g ↦ rw (e, on_command, f, g) (unsubscribe-IsServer s i topic v)
          | inr g ↦ elim (Bool-cases (ltb (length topic) 50)) [
            | inl h ↦ rw (e, on_command, f, g, h) (subscribe-Keeps s i topic _ v)
            | inr h ↦ rw (e, on_command, f, g, h) tt
          ]
        ]
      ]
    ]

pub on_message-Keeps :
    (s : Server) (i : ℕ) (bytes : List ℕ) → IsServer s → Keeps (on_message s i bytes)
unfolding on_message
on_message-Keeps s i bytes v = elim (Bool-cases (is_prefix (codes "exit") (c_text bytes))) [
  | inl e ↦ rw e (disconnect-Keeps s i v)
  | inr e ↦ elim (Bool-cases (terminated bytes)) [
    | inl f ↦ rw (e, f) (on_command-Keeps s i (c_text bytes) v)
    | inr f ↦ rw (e, f) tt
  ]
]
