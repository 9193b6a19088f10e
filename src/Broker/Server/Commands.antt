-- ===== src/Broker/Server/Commands.antt =====
-- What a subscription and an unsubscription change in Tema_2/server.cpp.
use communication_protocols.Base.{
  ℕ, ◌≡◌, refl, ap, subst, ◌∙◌, true, ◌&&◌, Bool-cases, Option-cases, inl, inr, Option, none, some,
  List, [], ◌∷◌, arith, ltb, ◌==◌, if◌then◌else◌, length,
}
use communication_protocols.CString.{same, same_iff, is_prefix, c_text}
use communication_protocols.Broker.Map.{Map, lookup, insert, adjust, erase, find_if}
use communication_protocols.Broker.Map.Laws.{
  lookup-adjust, lookup-insert, on_some, kept_or, same_refl, lookup-erase, IsUnique,
}
use communication_protocols.Broker.Command.{has_fd, set_sf, subscribe, unsubscribe, on_message}
use communication_protocols.Broker.State.{Client, Topics, Server, running, terminated}
use communication_protocols.Broker.Server.WellFormed.{IsServer, lookup-IsClients}
use communication_protocols.Broker.Server.Delivery.{subscription, subscribers, at_topic}
use communication_protocols.Broker.Server.Words.{
  Word, subscribe_text, unsubscribe_text, subscribe_command, unsubscribe_command, command_of-text,
}

-- An entry that is inserted unless the client has one.
abbrev pub entered : (topic k : List ℕ) → Client → (u j : List ℕ) → Option Client → Option Client
entered topic k c u j o = if same topic u && same k j then kept_or c o else o

nobody : (j : List ℕ) → lookup {V = Client} j [] ≡ none
unfolding lookup
nobody j = refl

-- The subscribers of a topic, after an entry for the topic is made and changed.
lookup-topic :
    (topic u : List ℕ) (f : Map Client → Map Client) (topics : Topics)
    → lookup u (adjust topic f (insert topic [] topics))
      ≡ (if same topic u then on_some f (kept_or [] (lookup u topics)) else lookup u topics)
lookup-topic topic u f topics =
    ground
      (arith, lookup-adjust topic u f (insert topic [] topics), lookup-insert topic u [] topics)

subscription-entered :
    (topic k u j : List ℕ) (c : Client) (topics : Topics)
    → subscription u j (adjust topic (insert k c) (insert topic [] topics))
      ≡ entered topic k c u j (subscription u j topics)
subscription-entered topic k u j c topics = elim (Option-cases (lookup u topics)) [
  | inl e ↦
      ground (arith, lookup-topic topic u (insert k c) topics, lookup-insert k j c [], nobody j)
  | inr (subs, e) ↦
      ground (arith, lookup-topic topic u (insert k c) topics, lookup-insert k j c subs)
]

-- What a subscription changes: `k` and `c` are the client, `b` is its new SF.
pub record Subscribed (s : Server) (topic k : List ℕ) (c : Client) (b : ℕ) (s' : Server)
    : Type 0 where
  pub subs :
      (u j : List ℕ)
      → subscription u j s'.topics_subs
        ≡ entered topic k (record c { sf = b }) u j (subscription u j s.topics_subs)
  pub clients :
      (j : List ℕ)
      → lookup j s'.clients ≡ (
          if same k j
          then on_some (λ d. record d { sf = b }) (lookup j s.clients)
          else lookup j s.clients)
  pub queues : s'.msg_holder ≡ s.msg_holder
  pub read_fds : s'.read_fds ≡ s.read_fds
  pub maxfd : s'.maxfd ≡ s.maxfd

-- A subscription reaches the server as one message: two words, the first character of the last one
-- is the SF, and the topic is shorter than fifty characters. The first client with the descriptor is
-- entered in the topic with this SF, unless it is there already, when its old entry stays as it is; no
-- other subscription changes. Its SF in `clients` is set, and no other client changes, nor the queues,
-- the read set and the highest descriptor; nothing is sent or printed.
pub on_message-subscribe :
    (s : Server) (i b : ℕ) (bytes topic bs k : List ℕ) (c : Client)
    → c_text bytes ≡ subscribe_text topic (b ∷ bs)
    → terminated bytes ≡ true
    → Word topic
    → Word (b ∷ bs)
    → ltb (length topic) 50 ≡ true
    → find_if (λ x. x.fd == i) s.clients ≡ some (k, c)
    → (s' : Server) × (on_message s i bytes ≡ running s' []) × Subscribed s topic k c b s'
unfolding subscribe is_prefix
on_message-subscribe s i b bytes topic bs k c e ends h w fits found = (
  record s {
    clients = adjust k (set_sf b) s.clients;
    topics_subs = adjust topic (insert k (set_sf b c)) (insert topic [] s.topics_subs);
  },
  command_of-text s i bytes (subscribe_text topic (b ∷ bs)) e ends refl
      ∙ subscribe_command s i topic (b ∷ bs) h w fits
      ∙ rw (found, subscribe),
  record {
    subs = λ u j. subscription-entered topic k u j (set_sf b c) s.topics_subs;
    clients = λ j. lookup-adjust k j (set_sf b) s.clients;
    queues = refl;
    read_fds = refl;
    maxfd = refl;
  },
)

-- What is left of an entry as the first subscriber with the descriptor is erased.
abbrev pub removed : Option (List ℕ × Client) → List ℕ → Option Client → Option Client
removed none j o = o
removed (some (k, c)) j o = if same k j then none else o

subscription-topic :
    (topic u j : List ℕ) (topics : Topics)
    → subscription u j (insert topic [] topics) ≡ subscription u j topics
subscription-topic topic u j topics = ground (arith, lookup-insert topic u [] topics, nobody j)

subscribers-topic :
    (topic : List ℕ) (topics : Topics)
    → lookup topic (insert topic [] topics) ≡ some (subscribers topic topics)
subscribers-topic topic topics =
    ground (arith, lookup-insert topic topic [] topics, same_refl topic)

subscription-erased :
    (topic k u j : List ℕ) (topics : Topics)
    → IsUnique (subscribers topic topics)
    → subscription u j (adjust topic (erase k) (insert topic [] topics))
      ≡ (if same topic u && same k j then none else subscription u j topics)
subscription-erased topic k u j topics once = elim (Option-cases (lookup u topics)) [
  | inl e ↦
      ground (
        arith,
        lookup-topic topic u (erase k) topics,
        lookup-erase {V = Client} k j [] tt,
        nobody j,
      )
  | inr (subs, e) ↦ elim (Bool-cases (same topic u)) [
    | inl f ↦
        let here : subscribers topic topics ≡ subs =
          ap (λ t. subscribers t topics) ((same_iff topic u).0 f)
          ∙ (at_topic u [] topics (some subs) e).1 in
        let once' : IsUnique subs = subst IsUnique here once in
        ground (arith, lookup-topic topic u (erase k) topics, lookup-erase k j subs once')
    | inr f ↦ ground (arith, lookup-topic topic u (erase k) topics)
  ]
]

subscribers-IsUnique :
    (s : Server) (t : List ℕ) → IsServer s → IsUnique (subscribers t s.topics_subs)
subscribers-IsUnique s t v = elim (Option-cases (lookup t s.topics_subs)) [
  | inl e ↦ rw (at_topic t [] s.topics_subs none e).1 tt
  | inr (subs, e) ↦
      rw (at_topic t [] s.topics_subs (some subs) e).1
        (lookup-IsClients t s.topics_subs subs v.subs e).unique
]

pub record Unsubscribed (s : Server) (i : ℕ) (topic : List ℕ) (s' : Server) : Type 0 where
  pub subs :
      (u j : List ℕ)
      → subscription u j s'.topics_subs ≡ (
          if same topic u
          then removed
              (find_if (λ c. c.fd == i) (subscribers topic s.topics_subs))
              j
              (subscription u j s.topics_subs)
          else subscription u j s.topics_subs)
  pub clients : s'.clients ≡ s.clients
  pub queues : s'.msg_holder ≡ s.msg_holder
  pub read_fds : s'.read_fds ≡ s.read_fds
  pub maxfd : s'.maxfd ≡ s.maxfd

unsubscribe_lem :
    (s : Server) (i : ℕ) (topic u j : List ℕ)
    → IsServer s
    → subscription u j (unsubscribe s i topic).topics_subs ≡ (
        if same topic u
        then removed
            (find_if (has_fd i) (subscribers topic s.topics_subs))
            j
            (subscription u j s.topics_subs)
        else subscription u j s.topics_subs)
unfolding unsubscribe
unsubscribe_lem s i topic u j v =
    let there : lookup topic (insert topic [] s.topics_subs)
        ≡ some (subscribers topic s.topics_subs) =
      subscribers-topic topic s.topics_subs in
    elim (Option-cases (find_if (has_fd i) (subscribers topic s.topics_subs))) [
      | inl e ↦
          rw (unsubscribe, there, e) (ground (arith, subscription-topic topic u j s.topics_subs))
      | inr ((k, c), e) ↦
          rw (unsubscribe, there, e)
            (subscription-erased topic k u j s.topics_subs (subscribers-IsUnique s topic v)
              ∙ ground arith)
    ]

-- An unsubscription reaches the server as one message: of the topic's subscribers the first one with
-- the descriptor is erased, and no other subscription changes, in this topic or in another, nor do
-- the clients, the queues, the read set and the highest descriptor; nothing is sent or printed.
pub on_message-unsubscribe :
    (s : Server) (i : ℕ) (bytes topic : List ℕ)
    → IsServer s
    → c_text bytes ≡ unsubscribe_text topic
    → terminated bytes ≡ true
    → Word topic
    → (s' : Server) × (on_message s i bytes ≡ running s' []) × Unsubscribed s i topic s'
unfolding is_prefix unsubscribe
on_message-unsubscribe s i bytes topic v e ends h = (
  unsubscribe s i topic,
  command_of-text s i bytes (unsubscribe_text topic) e ends refl ∙ unsubscribe_command s i topic h,
  record {
    subs = λ u j. unsubscribe_lem s i topic u j v;
    clients = refl;
    queues = refl;
    read_fds = refl;
    maxfd = refl;
  },
)
