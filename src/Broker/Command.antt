-- ===== src/Broker/Command.antt =====
-- A message of a client in the loop of Tema_2/server.cpp: exit, subscribe and unsubscribe.
use communication_protocols.Base.{
  ℕ, Bool, Option, none, some, List, [], ◌∷◌, ◌++◌, ltb, ◌==◌, if◌then◌else◌, length, codes,
}
use communication_protocols.CString.{is_prefix, strtok, c_text}
use communication_protocols.Broker.Map.{lookup, insert, adjust, each, erase, find_if}
use communication_protocols.Broker.State.{
  Client, Topics, Server, print, close, Outcome, running, fault, terminated,
}

abbrev pub has_fd : ℕ → Client → Bool
has_fd i c = c.fd == i

abbrev pub disconnected : Client → Client
disconnected c = record c { connected = 0 }

unfoldable pub drop_fd : ℕ → Client → Client
drop_fd i c = if has_fd i c then disconnected c else c

-- FD_CLR
unfoldable pub unwatch : ℕ → List ℕ → List ℕ
unwatch i [] = []
unwatch i (fd ∷ fds) = let rest = unwatch i fds in if fd == i then rest else fd ∷ rest

-- The descriptor is taken out of the read set, and its copies in the topics are set to disconnected.
unfoldable pub cleared : Server → ℕ → Server
unfolding each drop_fd unwatch
cleared s i = record s {
  read_fds = unwatch i s.read_fds;
  topics_subs = each (each (drop_fd i)) s.topics_subs;
}

abbrev pub farewell : (id : List ℕ) → List ℕ
farewell id = codes "Client " ++ (id ++ codes " disconnected.\n")

unfoldable pub disconnect : Server → ℕ → Outcome
unfolding cleared adjust find_if
disconnect s i = elim (find_if (has_fd i) s.clients) [
  | none ↦ running (cleared s i) (close i ∷ [])
  | some (k, c) ↦
      running (record (cleared s i) { clients = adjust k disconnected s.clients })
        (close i ∷ print (farewell k) ∷ [])
]

-- topics_subs[topic], and the erasure of the first entry with the descriptor.
unfoldable pub unsubscribe : Server → ℕ → List ℕ → Server
unfolding insert lookup find_if erase adjust
unsubscribe s i topic =
    let topics : Topics = insert topic [] s.topics_subs in
    record s {
      topics_subs = elim (lookup topic topics) [
        | none ↦ topics
        | some subs ↦ elim (find_if (has_fd i) subs) [
          | none ↦ topics
          | some (k, c) ↦ adjust topic (erase k) topics
        ]
      ];
    }

abbrev pub set_sf : ℕ → Client → Client
set_sf sf c = record c { sf = sf }

-- Whether the topic is there or not, it is there afterwards, and the first client with the descriptor
-- is inserted. `sf` is the token behind the topic; a NULL is read if there is a client.
unfoldable pub subscribe : Server → ℕ → (topic : List ℕ) (sf : Option (List ℕ)) → Outcome
unfolding insert find_if adjust
subscribe s i topic sf =
    let topics : Topics = insert topic [] s.topics_subs in
    elim (find_if (has_fd i) s.clients) [
      | none ↦ running (record s { topics_subs = topics }) []
      | some (k, c) ↦ elim sf [
        | none ↦ fault
        | some [] ↦ fault
        | some (b ∷ bs) ↦
            running
              (record s {
                clients = adjust k (set_sf b) s.clients;
                topics_subs = adjust topic (insert k (set_sf b c)) topics;
              })
              []
      ]
    ]

-- The tokens of a command; the topic is copied into fifty bytes.
unfoldable pub on_command : Server → ℕ → List ℕ → Outcome
unfolding strtok is_prefix unsubscribe subscribe
on_command s i text =
    let first = strtok (codes " ") text in
    let second = strtok (codes " ") first.1 in
    let third = strtok (codes " ") second.1 in
    elim first.0 [
      | none ↦ fault
      | some word ↦ elim second.0 [
        | none ↦ fault
        | some topic ↦
            if is_prefix (codes "unsubscribe") word
            then running (unsubscribe s i topic) []
            else if ltb (length topic) 50
            then subscribe s i topic third.0
            else fault
      ]
    ]

-- strncmp(buff, "exit", 4) comes first; it reads four bytes of the buffer at most.
unfoldable pub on_message : Server → ℕ → List ℕ → Outcome
unfolding c_text is_prefix disconnect on_command
on_message s i bytes =
    if is_prefix (codes "exit") (c_text bytes)
    then disconnect s i
    else if terminated bytes
    then on_command s i (c_text bytes)
    else fault
