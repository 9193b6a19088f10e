-- ===== src/Broker/Server/Away.antt =====
-- Store and forward in Tema_2/server.cpp: what a client finds as it comes back.
use communication_protocols.Base.{
  ℕ, ◌≡◌, refl, sym, ap, ◌∙◌, subst, true, ◌&&◌, some, List, [], ◌∷◌, ◌++◌, append-nil,
  append_assoc, map, arith, ltb, length,
}
use communication_protocols.Broker.Map.{lookup, insert, adjust}
use communication_protocols.Broker.Map.Laws.{lookup-adjust, lookup-insert, same_refl}
use communication_protocols.Broker.Server.{step, prepend, run}
use communication_protocols.Broker.Server.Runs.{run-cons, prepend-append, prepend-nil, run-one}
use communication_protocols.Broker.Connect.{
  on_request, reconnect, reconnected, connect_to, greeting, queue_of, drain,
}
use communication_protocols.Broker.State.{
  Client, TcpMsg, Topics, Holder, Server, Action, send, print, running, Event, datagram, request,
  terminated, tcp_msg,
}
use communication_protocols.CString.{c_text}
use communication_protocols.Broker.Server.WellFormed.{IsServer}
use communication_protocols.Broker.Server.Step.{step-Keeps}
use communication_protocols.Broker.Server.Keeps.{Keeps}
use communication_protocols.Broker.Server.Delivery.{
  subscription, subscribers, connected_fds, send_all, kept_for, held, on_datagram-Published,
}

pub record Datagram : Type 0 where
  pub ip : List ℕ
  pub port : ℕ
  pub bytes : List ℕ

abbrev pub event : Datagram → Event
event d = datagram d.ip d.port d.bytes

abbrev pub events : List Datagram → List Event
events [] = []
events (d ∷ ds) = event d ∷ events ds

abbrev pub AllTerminated : List Datagram → Type 0
AllTerminated [] = Unit {0}
AllTerminated (d ∷ ds) = (terminated d.bytes ≡ true) × AllTerminated ds

-- The messages on topics that the client subscribed to with store and forward, while it is away.
abbrev pub missed : List ℕ → Topics → List Datagram → List TcpMsg
missed k topics [] = []
missed k topics (d ∷ ds) =
    kept_for (tcp_msg d.ip d.port d.bytes) (subscription (c_text d.bytes) k topics)
    ++ missed k topics ds

-- What the datagrams cause: each goes to the subscribers of its topic that are connected.
abbrev pub forwarded : Topics → List Datagram → List Action
forwarded topics [] = []
forwarded topics (d ∷ ds) =
    send_all (tcp_msg d.ip d.port d.bytes) (connected_fds (subscribers (c_text d.bytes) topics))
    ++ forwarded topics ds

forwarded-topics :
    (topics topics' : Topics) (ds : List Datagram)
    → ((t : List ℕ) → subscribers t topics' ≡ subscribers t topics)
    → forwarded topics' ds ≡ forwarded topics ds
forwarded-topics topics topics' [] h = refl
forwarded-topics topics topics' (d ∷ ds) h =
    rw (h (c_text d.bytes), forwarded-topics topics topics' ds h)

missed-topics :
    (k : List ℕ) (topics topics' : Topics) (ds : List Datagram)
    → ((t : List ℕ) → subscription t k topics' ≡ subscription t k topics)
    → missed k topics' ds ≡ missed k topics ds
missed-topics k topics topics' [] h = refl
missed-topics k topics topics' (d ∷ ds) h =
    rw (h (c_text d.bytes), missed-topics k topics topics' ds h)

-- After the datagrams: how any further events go on, what is queued, and what stays.
pub record Queued (s : Server) (ds : List Datagram) (s' : Server) : Type 0 where
  pub then_run :
      (es : List Event) → run s (events ds ++ es) ≡ prepend (forwarded s.topics_subs ds) (run s' es)
  pub clients : s'.clients ≡ s.clients
  pub queues :
      (k : List ℕ) → held k s'.msg_holder ≡ held k s.msg_holder ++ missed k s.topics_subs ds

datagrams-Queued :
    (s : Server) (ds : List Datagram)
    → IsServer s
    → AllTerminated ds
    → (s' : Server) × Queued s ds s'
unfolding step
datagrams-Queued s [] v h = (
  s,
  record {
    then_run = λ es. sym (prepend-nil (run s es));
    clients = refl;
    queues = λ k. sym (append-nil (held k s.msg_holder));
  },
)
datagrams-Queued s (d ∷ ds) v h =
    let (s1, done, ok, p) = on_datagram-Published s d.ip d.port d.bytes v h.0 in
    let v1 : IsServer s1 = subst Keeps ok (step-Keeps s (event d) v) in
    let (s2, q) = datagrams-Queued s1 ds v1 h.1 in
    let sent : List Action =
      send_all (tcp_msg d.ip d.port d.bytes)
        (connected_fds (subscribers (c_text d.bytes) s.topics_subs)) in
    let later : forwarded s1.topics_subs ds ≡ forwarded s.topics_subs ds =
      forwarded-topics s.topics_subs s1.topics_subs ds p.same_subscribers in
    (
      s2,
      record {
        then_run = λ es.
            run-cons s s1 (event d) (events ds ++ es) done ok
            ∙ ap (prepend done) (q.then_run es)
            ∙ prepend-append done (forwarded s1.topics_subs ds) (run s2 es)
            ∙ ap (λ (l : List Action). prepend (l ++ forwarded s1.topics_subs ds) (run s2 es))
                p.sent
            ∙ ap (λ (l : List Action). prepend (sent ++ l) (run s2 es)) later;
        clients = q.clients ∙ p.clients;
        queues = λ k.
            q.queues k
            ∙ ap (λ (l : List TcpMsg). l ++ missed k s1.topics_subs ds) (p.queues k)
            ∙ rw (missed-topics k s.topics_subs s1.topics_subs ds (λ t. p.same_subs t k))
                (append_assoc (held k s.msg_holder) _ (missed k s.topics_subs ds));
      },
    )

held-cleared : (id : List ℕ) (h : Holder) → held id (adjust id (λ _. []) (insert id [] h)) ≡ []
held-cleared id h = ground (
  arith,
  lookup-adjust id id (λ (q : List TcpMsg). []) (insert id [] h),
  lookup-insert id id [] h,
  same_refl id,
)

drain-sends : (fd : ℕ) (q : List TcpMsg) → drain fd q ≡ map (send fd) q
unfolding drain
drain-sends fd [] = refl
drain-sends fd (msg ∷ q) = rw (drain-sends fd q)

module _ (s : Server) (fd : ℕ) (ip : List ℕ) (port : ℕ) (bytes : List ℕ) (c : Client)
    (fits : (terminated bytes && ltb (length (c_text bytes)) 10) ≡ true)
    (known : lookup (c_text bytes) s.clients ≡ some c) (away : c.connected ≡ 0) where
  -- What a client that comes back gets, and what is left.
  on_request-away :
      (s' : Server) × (on_request s fd ip port bytes
        ≡ running s' (
            map (send fd) (held (c_text bytes) s.msg_holder)
            ++ (print (greeting (c_text bytes) ip port) ∷ [])))
      × (held (c_text bytes) s'.msg_holder ≡ [])
      × (lookup (c_text bytes) s'.clients ≡ some (record c { connected = 1; fd = fd }))
  unfolding on_request reconnect reconnected queue_of
  on_request-away = (
    reconnected s fd (c_text bytes),
    rw (fits, known, away, drain-sends fd (held (c_text bytes) s.msg_holder)),
    held-cleared (c_text bytes) s.msg_holder,
    rw (
      lookup-adjust (c_text bytes) (c_text bytes) (connect_to fd) s.clients,
      same_refl (c_text bytes),
      known,
    ),
  )

module _ (s : Server) (fd : ℕ) (ip : List ℕ) (port : ℕ) (bytes : List ℕ) (c : Client)
    (fits : (terminated bytes && ltb (length (c_text bytes)) 10) ≡ true)
    (known : lookup (c_text bytes) s.clients ≡ some c) (away : c.connected ≡ 0) where
  -- A client that was connected before and is away: after any datagrams whose topics end in the buffer
  -- it connects again with its id, of less than ten characters, on a state of the right shape. The run
  -- goes through: each datagram goes to the connected subscribers of its topic; then the new descriptor
  -- is sent first the messages that were queued before, then those of the datagrams that the client
  -- subscribed to with store and forward, in their order, each once; then the server greets. The
  -- queue is empty afterwards, and the client connected with the new descriptor.
  pub messages_while_away :
      (ds : List Datagram)
      → IsServer s
      → AllTerminated ds
      → (s' : Server) × (run s (events ds ++ (request fd ip port bytes ∷ []))
          ≡ running s' (
              forwarded s.topics_subs ds
              ++ (map
                    (send fd)
                    (held (c_text bytes) s.msg_holder ++ missed (c_text bytes) s.topics_subs ds)
                  ++ (print (greeting (c_text bytes) ip port) ∷ []))))
        × (held (c_text bytes) s'.msg_holder ≡ [])
        × (lookup (c_text bytes) s'.clients ≡ some (record c { connected = 1; fd = fd }))
  unfolding step prepend
  messages_while_away ds v h =
      let (s1, q) = datagrams-Queued s ds v h in
      let before : List Action = forwarded s.topics_subs ds in
      let id : List ℕ = c_text bytes in
      let (s2, ok, empty, back) =
        on_request-away s1 fd ip port bytes c fits (ap (lookup id) q.clients ∙ known) away in
      let last : run s1 (request fd ip port bytes ∷ [])
          ≡ running s2
              (map (send fd) (held id s1.msg_holder) ++ (print (greeting id ip port) ∷ [])) =
        run-one s1 s2 (request fd ip port bytes) _ ok in
      (
        s2,
        q.then_run (request fd ip port bytes ∷ [])
            ∙ ap (prepend before) last
            ∙ ap
                (λ (l : List TcpMsg).
                  running s2 (before ++ (map (send fd) l ++ (print (greeting id ip port) ∷ []))))
                (q.queues id),
        empty,
        back,
      )
