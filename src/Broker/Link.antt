-- ===== src/Broker/Link.antt =====
-- What Tema_2/subscriber.cpp sends, as it starts and for a line that is typed, and Tema_2/server.cpp
-- receives as it was sent.
use communication_protocols.Base.{
  ℕ, ◌%◌, ◌^◌, ◌<◌, ◌≡◌, some, none, refl, ap, ◌∙◌, sym, true, false, Bool-cases, inl, inr, List,
  [], ◌∷◌, ◌++◌, append-nil, arith, lt→ltb, ltb, ◌&&◌, max, length, length-append, codes,
}
use communication_protocols.CString.{
  atoi, same, same_iff, strtok, skip, span, is_delimiter, c_text, NoZero, c_text-whole,
}
use communication_protocols.Broker.Map.{lookup, insert}
use communication_protocols.Broker.Map.Laws.{lookup-insert}
use communication_protocols.Broker.Command.{on_message}
use communication_protocols.Broker.Connect.{on_request, greeting, first_connection}
use communication_protocols.Broker.State.{Server, print, running, buflen, terminated, padded}
use communication_protocols.Broker.Server.WellFormed.{IsServer}
use communication_protocols.Broker.Server.Delivery.{subscription}
use communication_protocols.Broker.Server.Words.{NoSpace, Word, unsubscribe_text}
use communication_protocols.Broker.Server.Commands.{on_message-unsubscribe}
use communication_protocols.Broker.Subscriber.{Connection, connect, going, sends, prints, on_typed}
use communication_protocols.Broker.Subscriber.Report.{c_text-padded}

NoSpace-line : (s : List ℕ) → NoSpace s → Word (s ++ codes "\n")
NoSpace-line [] h = (refl, tt)
NoSpace-line (c ∷ s) h = (h.0, line s h.1)
  where
    line : (s : List ℕ) → NoSpace s → NoSpace (s ++ codes "\n")
    line [] h = (refl, tt)
    line (c ∷ s) h = (h.0, line s h.1)

longer : (s : List ℕ) → same (s ++ codes "\n") s ≡ false
longer s = elim (Bool-cases (same (s ++ codes "\n") s)) [
  | inr e ↦ e
  | inl e ↦
      let k : length (s ++ codes "\n") ≡ length s =
        ap length ((same_iff (s ++ codes "\n") s).0 e) in
      absurd (omega (arith, k, length-append s (codes "\n")))
]

-- The line that fgets reads.
abbrev pub unsubscribe_line : List ℕ → List ℕ
unsubscribe_line topic = unsubscribe_text (topic ++ codes "\n")

module _ (topic : List ℕ) (word : NoSpace topic) (whole : NoZero topic)
    (fits : length topic < 1500) where
  abbrev sent : List ℕ
  sent = padded buflen (unsubscribe_line topic)

  line-text : c_text (unsubscribe_line topic) ≡ unsubscribe_line topic
  unfolding c_text
  line-text = rw (c_text-whole topic (codes "\n") whole)

  line-short : length (unsubscribe_line topic) < 1551
  line-short = omega (arith, length-append topic (codes "\n"))

  sent-text : c_text sent ≡ unsubscribe_line topic
  sent-text =
      ap c_text (sym (append-nil sent))
      ∙ c_text-padded buflen (unsubscribe_line topic) [] (rw line-text (omega (arith, line-short)))
      ∙ line-text

  -- The client sends the newline that ends the line "unsubscribe topic". It says that it unsubscribed,
  -- and the server, on the bytes as they were sent, takes the newline for a part of the topic: all
  -- subscriptions of the topic stay as they are.
  pub unsubscribe_keeps :
      (s : Server) (i : ℕ)
      → IsServer s
      → (on_typed (unsubscribe_line topic)
          ≡ going (sends sent ∷ prints (codes "Unsubscribed from topic.\n") ∷ []))
        × ((s' : Server) × (on_message s i sent ≡ running s' [])
            × ((j : List ℕ)
                → subscription topic j s'.topics_subs ≡ subscription topic j s.topics_subs))
  unfolding on_typed strtok skip span is_delimiter
  unsubscribe_keeps s i v =
      let ends : terminated sent ≡ true =
        let n : length (c_text sent) ≡ length (unsubscribe_line topic) = ap length sent-text in
        lt→ltb (length (c_text sent)) buflen (omega (arith, n, line-short)) in
      let (s', ok, left) =
        on_message-unsubscribe s i sent (topic ++ codes "\n") v sent-text ends
          (NoSpace-line topic word) in
      (refl, (s', ok, λ j. left.subs topic j ∙ rw (longer topic)))

request_accepted :
    (s : Server) (fd : ℕ) (ip : List ℕ) (from : ℕ) (bytes id : List ℕ)
    → c_text bytes ≡ id
    → length id < 10
    → lookup id s.clients ≡ none
    → on_request s fd ip from bytes ≡ first_connection s fd id ip from
unfolding on_request
request_accepted s fd ip from bytes id text short new =
    let fits : (ltb (length id) buflen && ltb (length id) 10) ≡ true = ground arith in
    let fits_there : (terminated bytes && ltb (length (c_text bytes)) 10) ≡ true = rw text fits in
    let new_there : lookup (c_text bytes) s.clients ≡ none = rw text new in
    rw (on_request, fits_there, new_there)
      (ap (λ (t : List ℕ). first_connection s fd t ip from) text)

module _ (id : List ℕ) (whole : NoZero id) where
  abbrev id_sent : List ℕ
  id_sent = padded buflen id

  id-text : length id < buflen → c_text id_sent ≡ id
  unfolding c_text
  id-text short =
      let text : c_text id ≡ id =
        ap c_text (sym (append-nil id)) ∙ c_text-whole id [] whole ∙ append-nil id in
      ap c_text (sym (append-nil id_sent)) ∙ c_text-padded buflen id [] (rw text short) ∙ text

  module _ (name server port : List ℕ) (argv : List (List ℕ)) (sys : Connection)
      (sockfd address : ℕ) (opened : sys.socket ≡ some sockfd)
      (known : sys.inet_aton server ≡ some address)
      (connected : sys.connects address (atoi port % 2 ^ 16) ≡ true)
      (taken : sys.takes ≡ true) where
    connect-sends :
        length id < buflen
        → connect (name ∷ id ∷ server ∷ port ∷ argv) sys ≡ going (sends id_sent ∷ [])
    unfolding connect
    connect-sends short = rw (opened, known, connected, lt→ltb (length id) buflen short, taken)

    -- The system calls of a subscriber that starts succeed. If its id has less than ten characters and
    -- the server has no client of this name, the server takes what the subscriber sends as it starts:
    -- it greets the client, and has it as connected, without SF, under the id and with the new
    -- descriptor.
    pub connect_accepted :
        (s : Server) (fd : ℕ) (ip : List ℕ) (from : ℕ)
        → length id < 10
        → lookup id s.clients ≡ none
        → (connect (name ∷ id ∷ server ∷ port ∷ argv) sys ≡ going (sends id_sent ∷ []))
          × ((s' : Server) × (on_request s fd ip from id_sent
                ≡ running s' (print (greeting id ip from) ∷ []))
              × (lookup id s'.clients ≡ some (record { id = id; connected = 1; sf = 0; fd = fd })))
    unfolding first_connection
    connect_accepted s fd ip from short new =
        let text : c_text id_sent ≡ id = id-text (omega arith) in
        let here : same id id ≡ true = (same_iff id id).1 refl in
        (
          connect-sends (omega arith),
          (
            record s {
              read_fds = fd ∷ s.read_fds;
              maxfd = max fd s.maxfd;
              msg_holder = insert id [] s.msg_holder;
              clients = insert id (record { id = id; connected = 1; sf = 0; fd = fd }) s.clients;
            },
            request_accepted s fd ip from id_sent id text short new,
            rw (
              lookup-insert id id (record { id = id; connected = 1; sf = 0; fd = fd }) s.clients,
              here,
              new,
            ),
          ),
        )
