-- ===== src/Broker/Server/Delivery.antt =====
-- What Tema_2/server.cpp does with a message on a topic.
use communication_protocols.Base.{
  ℕ, ◌≡◌, refl, sym, ap, ◌∙◌, inl, inr, true, false, Bool-cases, Option-cases, Option, none, some,
  List, [], ◌∷◌, ◌++◌, append-nil, arith, ◌==◌, if◌then◌else◌,
}
use communication_protocols.CString.{same, same_iff, c_text}
use communication_protocols.Broker.Map.{Map, lookup, insert}
use communication_protocols.Broker.Map.Laws.{IsUnique, lookup-adjust, lookup-insert}
use communication_protocols.Broker.Publish.{push, hold, deliver, on_datagram}
use communication_protocols.Broker.State.{
  Client, TcpMsg, Topics, Holder, Server, Action, send, running, terminated, tcp_msg,
}
use communication_protocols.Broker.Server.WellFormed.{Keyed, IsClients, IsServer, lookup-IsClients}

-- The entry of a client in a topic.
abbrev pub subscription : (topic id : List ℕ) → Topics → Option Client
subscription topic id topics = elim (lookup topic topics) [
  | none ↦ none
  | some subs ↦ lookup id subs
]

-- The clients that a topic has, in order, and the messages to those that are connected.
abbrev pub subscribers : List ℕ → Topics → Map Client
subscribers topic topics = elim (lookup topic topics) [ none ↦ [] | some subs ↦ subs ]

abbrev pub connected_fds : Map Client → List ℕ
connected_fds [] = []
connected_fds ((k, c) ∷ subs) =
    if c.connected == 1 then c.fd ∷ connected_fds subs else connected_fds subs

-- What waits for a client.
abbrev pub held : List ℕ → Holder → List TcpMsg
held k holder = elim (lookup k holder) [ none ↦ [] | some q ↦ q ]

abbrev pub send_all : TcpMsg → List ℕ → List Action
send_all msg [] = []
send_all msg (fd ∷ fds) = send fd msg ∷ send_all msg fds

-- What is kept for a client: the message, if it subscribed with store and forward and is away.
abbrev pub kept_for : TcpMsg → Option Client → List TcpMsg
kept_for msg none = []
kept_for msg (some c) = if c.connected == 1 then [] else if c.sf == b'1' then msg ∷ [] else []

held-push :
    (k j : List ℕ) (msg : TcpMsg) (h : Holder)
    → held j (push k msg h) ≡ (if same k j then held j h ++ (msg ∷ []) else held j h)
unfolding push
held-push k j msg h = ground (
  arith,
  lookup-adjust k j (λ (q : List TcpMsg). q ++ (msg ∷ [])) (insert k [] h),
  lookup-insert k j [] h,
)

held-hold :
    (msg : TcpMsg) (c : Client) (j : List ℕ) (h : Holder)
    → held j (hold msg c h) ≡ (if same c.id j then held j h ++ kept_for msg (some c) else held j h)
unfolding hold
held-hold msg c j h = ground (arith, held-push c.id j msg h, append-nil (held j h))

-- One entry of the loop, and the rest of it.
entry_kept :
    (msg : TcpMsg) (k : List ℕ) (c : Client) (subs : Map Client) (j : List ℕ) (h : Holder)
    → c.id ≡ k
    → lookup k subs ≡ none
    → held j (hold msg c h) ++ kept_for msg (lookup j subs)
      ≡ held j h ++ kept_for msg (lookup j ((k, c) ∷ subs))
unfolding lookup
entry_kept msg k c subs j h id absent = elim (Bool-cases (same j k)) [
  | inl e ↦
      let same_key : j ≡ k = (same_iff j k).0 e in
      let hit : same c.id j ≡ true = (same_iff c.id j).1 (cc) in
      let gone : lookup j subs ≡ none = ap (λ i. lookup i subs) same_key ∙ absent in
      rw (e, held-hold msg c j h, hit, gone) (append-nil (held j h ++ kept_for msg (some c)))
  | inr e ↦
      let miss : same c.id j ≡ false = ground (arith, same_iff c.id j, same_iff j k) in
      rw (e, held-hold msg c j h, miss)
]

held-deliver :
    (msg : TcpMsg) (subs : Map Client) (j : List ℕ) (h : Holder)
    → Keyed subs
    → IsUnique subs
    → held j (deliver msg subs h).0 ≡ held j h ++ kept_for msg (lookup j subs)
unfolding deliver lookup
held-deliver msg [] j h keyed unique = sym (append-nil (held j h))
held-deliver msg ((k, c) ∷ subs) j h keyed unique =
    held-deliver msg subs j (hold msg c h) keyed.1 unique.1
    ∙ entry_kept msg k c subs j h keyed.0 unique.0

deliver-sends :
    (msg : TcpMsg) (subs : Map Client) (h : Holder)
    → (deliver msg subs h).1 ≡ send_all msg (connected_fds subs)
unfolding deliver
deliver-sends msg [] h = refl
deliver-sends msg ((k, c) ∷ subs) h = ground (arith, deliver-sends msg subs (hold msg c h))

-- What a message leaves.
pub record Published (s : Server) (topic : List ℕ) (msg : TcpMsg) (s' : Server) (done : List Action)
    : Type 0 where
  pub clients : s'.clients ≡ s.clients
  pub same_subs : (t k : List ℕ) → subscription t k s'.topics_subs ≡ subscription t k s.topics_subs
  pub same_subscribers : (t : List ℕ) → subscribers t s'.topics_subs ≡ subscribers t s.topics_subs
  pub read_fds : s'.read_fds ≡ s.read_fds
  pub maxfd : s'.maxfd ≡ s.maxfd
  pub queues :
      (k : List ℕ)
      → held k s'.msg_holder
        ≡ held k s.msg_holder ++ kept_for msg (subscription topic k s.topics_subs)
  pub sent : done ≡ send_all msg (connected_fds (subscribers topic s.topics_subs))

pub at_topic :
    (topic k : List ℕ) (topics : Topics) (o : Option (Map Client))
    → lookup topic topics ≡ o
    → (subscription topic k topics ≡ (elim o [ none ↦ none | some subs ↦ lookup k subs ]))
      × (subscribers topic topics ≡ (elim o [ none ↦ [] | some subs ↦ subs ]))
at_topic topic k topics o e = (rw (e, subscription), rw (e, subscribers))

subscription-insert :
    (topic t k : List ℕ) (topics : Topics)
    → subscription t k (insert topic [] topics) ≡ subscription t k topics
unfolding lookup
subscription-insert topic t k topics = ground (arith, lookup-insert topic t [] topics)

subscribers-insert :
    (topic t : List ℕ) (topics : Topics)
    → subscribers t (insert topic [] topics) ≡ subscribers t topics
subscribers-insert topic t topics = ground (arith, lookup-insert topic t [] topics)

module _ (s : Server) (ip : List ℕ) (port : ℕ) (bytes : List ℕ) (v : IsServer s)
    (ends : terminated bytes ≡ true) where
  -- On a state of the right shape the server goes on after every datagram whose topic ends in the
  -- buffer: the message is sent, in order, to the subscribers of the topic that are connected, and to
  -- nobody else; the queue of each client that subscribed with store and forward and is away grows by
  -- the message, every other queue stays, and so do the clients, the subscriptions, their order in
  -- each topic, the read set and the highest descriptor.
  pub on_datagram-Published :
      (s' : Server) × (done : List Action) × (on_datagram s ip port bytes ≡ running s' done)
      × Published s (c_text bytes) (tcp_msg ip port bytes) s' done
  unfolding on_datagram lookup
  on_datagram-Published = elim (Option-cases (lookup (c_text bytes) s.topics_subs)) [
    | inl e ↦ (
      record s { topics_subs = insert (c_text bytes) [] s.topics_subs },
      [],
      rw (ends, e),
      record {
        clients = refl;
        same_subs = λ t k. subscription-insert (c_text bytes) t k s.topics_subs;
        same_subscribers = λ t. subscribers-insert (c_text bytes) t s.topics_subs;
        read_fds = refl;
        maxfd = refl;
        queues = λ k.
            rw (at_topic (c_text bytes) k s.topics_subs none e).0
              (sym (append-nil (held k s.msg_holder)));
        sent = rw (at_topic (c_text bytes) [] s.topics_subs none e).1;
      },
    )
    | inr (subs, e) ↦
        let msg : TcpMsg = tcp_msg ip port bytes in
        let w : IsClients subs = lookup-IsClients (c_text bytes) s.topics_subs subs v.subs e in
        (
          record s { msg_holder = (deliver msg subs s.msg_holder).0 },
          (deliver msg subs s.msg_holder).1,
          rw (ends, e),
          record {
            clients = refl;
            same_subs = λ t k. refl;
            same_subscribers = λ t. refl;
            read_fds = refl;
            maxfd = refl;
            queues = λ k.
                rw (at_topic (c_text bytes) k s.topics_subs (some subs) e).0
                  (held-deliver msg subs k s.msg_holder w.keyed w.unique);
            sent =
                rw (at_topic (c_text bytes) [] s.topics_subs (some subs) e).1
                  (deliver-sends msg subs s.msg_holder);
          },
        )
  ]
