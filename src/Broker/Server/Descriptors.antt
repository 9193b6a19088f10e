-- ===== src/Broker/Server/Descriptors.antt =====
-- Tema_2/server.cpp finds a client by its descriptor: what a disconnection changes, and what happens
-- if two clients have the same descriptor, one of them from an earlier connection.
use communication_protocols.Base.{
  ℕ, ◌≡◌, refl, ◌∙◌, true, false, Bool, ◌&&◌, Option-cases, inl, inr, Option, none, some, List, [],
  ◌∷◌, ◌++◌, ◌==◌, arith, ltb, if◌then◌else◌, length, codes,
}
use communication_protocols.CString.{same, is_prefix, c_text}
use communication_protocols.Broker.Map.{lookup, adjust, each, find_if}
use communication_protocols.Broker.Map.Laws.{lookup-each, lookup-adjust, on_some}
use communication_protocols.Broker.Command.{
  has_fd, disconnected, drop_fd, unwatch, cleared, farewell, disconnect, on_message,
}
use communication_protocols.Broker.Connect.{on_request}
use communication_protocols.Broker.State.{
  Client, Topics, Server, Action, print, close, running, terminated,
}
use communication_protocols.Broker.Server.Delivery.{subscription}

-- The clients, after the first one with the descriptor was set to disconnected.
abbrev pub first_dropped : Option (List ℕ × Client) → List ℕ → Option Client → Option Client
first_dropped none k o = o
first_dropped (some (j, c)) k o =
    if same j k then on_some (λ d. record d { connected = 0 }) o else o

-- FD_ISSET
abbrev pub in_set : ℕ → List ℕ → Bool
in_set fd [] = false
in_set fd (x ∷ fds) = if x == fd then true else in_set fd fds

-- What is done: the descriptor is closed, and the end of the first client with it is told.
abbrev pub told : ℕ → Option (List ℕ × Client) → List Action
told i none = close i ∷ []
told i (some (j, c)) = close i ∷ print (codes "Client " ++ (j ++ codes " disconnected.\n")) ∷ []

pub record Dropped (s : Server) (i : ℕ) (s' : Server) (done : List Action) : Type 0 where
  pub clients :
      (k : List ℕ)
      → lookup k s'.clients
        ≡ first_dropped (find_if (λ c. c.fd == i) s.clients) k (lookup k s.clients)
  pub subs :
      (t k : List ℕ)
      → subscription t k s'.topics_subs
        ≡ on_some
            (λ c. if c.fd == i then record c { connected = 0 } else c)
            (subscription t k s.topics_subs)
  pub queues : s'.msg_holder ≡ s.msg_holder
  pub watched : (fd : ℕ) → in_set fd s'.read_fds ≡ (if i == fd then false else in_set fd s.read_fds)
  pub maxfd : s'.maxfd ≡ s.maxfd
  pub does : done ≡ told i (find_if (λ c. c.fd == i) s.clients)

subscription-each :
    (f : Client → Client) (t k : List ℕ) (topics : Topics)
    → subscription t k (each (each f) topics) ≡ on_some f (subscription t k topics)
subscription-each f t k topics = elim (Option-cases (lookup t topics)) [
  | inl e ↦ rw (subscription, lookup-each t (each f) topics, e)
  | inr (subs, e) ↦ rw (subscription, lookup-each t (each f) topics, e) (lookup-each k f subs)
]

in_set-unwatch :
    (i fd : ℕ) (fds : List ℕ)
    → in_set fd (unwatch i fds) ≡ (if i == fd then false else in_set fd fds)
unfolding unwatch
in_set-unwatch i fd [] = ground arith
in_set-unwatch i fd (x ∷ fds) = ground (arith, in_set-unwatch i fd fds)

subscription-dropped :
    (i : ℕ) (t k : List ℕ) (topics : Topics)
    → subscription t k (each (each (drop_fd i)) topics)
      ≡ on_some (λ c. if c.fd == i then record c { connected = 0 } else c) (subscription t k topics)
unfolding drop_fd
subscription-dropped i t k topics = subscription-each (drop_fd i) t k topics

-- A disconnection closes the descriptor and takes it out of the read set, and no other one. It sets
-- `connected` to 0 in the first client with the descriptor, in the order of the ids, whose end it
-- tells, and in every copy with this descriptor in the topics; it changes no other client, nothing else
-- in them, and no queue.
pub disconnect-Dropped :
    (s : Server) (i : ℕ)
    → (s' : Server) × (done : List Action) × (disconnect s i ≡ running s' done)
      × Dropped s i s' done
unfolding disconnect cleared
disconnect-Dropped s i = elim (Option-cases (find_if (has_fd i) s.clients)) [
  | inl e ↦ (
    cleared s i,
    close i ∷ [],
    rw (e, disconnect),
    record {
      clients = λ k. rw e;
      subs = λ t k. subscription-dropped i t k s.topics_subs;
      queues = refl;
      watched = λ fd. in_set-unwatch i fd s.read_fds;
      maxfd = refl;
      does = rw e;
    },
  )
  | inr ((j, c), e) ↦ (
    record (cleared s i) { clients = adjust j disconnected s.clients },
    close i ∷ print (farewell j) ∷ [],
    rw (e, disconnect),
    record {
      clients = λ k. rw e (lookup-adjust j k disconnected s.clients);
      subs = λ t k. subscription-dropped i t k s.topics_subs;
      queues = refl;
      watched = λ fd. in_set-unwatch i fd s.read_fds;
      maxfd = refl;
      does = rw e;
    },
  )
]

-- A client is connected and has the descriptor; another client, which stands before it in the order
-- of the ids, has the descriptor still, from an earlier connection. Then the exit that comes over
-- the descriptor leaves the client that uses it connected in `clients`: its connection is closed, and
-- as it comes back with its id, of less than ten characters, and any new descriptor, it is refused and
-- closed again.
pub exit_shadowed :
    (s : Server) (i fd port : ℕ) (j ip bytes id : List ℕ) (c d : Client)
    → is_prefix (codes "exit") (c_text bytes) ≡ true
    → lookup (c_text id) s.clients ≡ some d
    → d.connected ≡ 1
    → d.fd ≡ i
    → find_if (λ x. x.fd == i) s.clients ≡ some (j, c)
    → same j (c_text id) ≡ false
    → c.connected ≡ 0
    → (terminated id && ltb (length (c_text id)) 10) ≡ true
    → (s' : Server) × (on_message s i bytes
        ≡ running s' (close i ∷ print (codes "Client " ++ (j ++ codes " disconnected.\n")) ∷ []))
      × (in_set i s'.read_fds ≡ false)
      × (lookup (c_text id) s'.clients ≡ some d)
      × (on_request s' fd ip port id
          ≡ running s' (
              print (codes "Client " ++ (c_text id ++ codes " already connected.\n"))
              ∷ close fd
              ∷ []))
unfolding on_message on_request
exit_shadowed s i fd port j ip bytes id c d exits known on uses first other stale fits =
    let (s', done, ok, dropped) = disconnect-Dropped s i in
    let still : lookup (c_text id) s'.clients ≡ some d =
      dropped.clients (c_text id) ∙ rw (first, first_dropped, other) known in
    let tells : done ≡ told i (some (j, c)) = dropped.does ∙ rw first in
    let here : (i == i) ≡ true = ground arith in
    (s', rw exits (ok ∙ rw tells), dropped.watched i ∙ rw here, still, rw (fits, still, on))
