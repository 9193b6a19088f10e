-- ===== src/Broker/Connect.antt =====
-- A connection in the loop of Tema_2/server.cpp: a client that is new, that comes back, or that is
-- refused.
use communication_protocols.Base.{
  ℕ, ◌&&◌, none, some, List, [], ◌∷◌, ◌++◌, ltb, ◌==◌, if◌then◌else◌, length, max, codes,
}
use communication_protocols.CString.{same, decimal, c_text}
use communication_protocols.Broker.Map.{lookup, insert, adjust, each}
use communication_protocols.Broker.State.{
  Client, TcpMsg, Holder, Server, Action, send, print, close, Outcome, running, fault, terminated,
}

-- printf("New client %s connected from %s:%d.\n", …)
abbrev pub greeting : (id ip : List ℕ) (port : ℕ) → List ℕ
greeting id ip port =
    codes "New client "
    ++ (id ++ (codes " connected from " ++ (ip ++ (codes ":" ++ (decimal port ++ codes ".\n")))))

abbrev pub connect_to : ℕ → Client → Client
connect_to fd c = record c { fd = fd; connected = 1 }

-- The update of a client's copy in a topic.
unfoldable pub revive : List ℕ → ℕ → Client → Client
revive id fd c = if same c.id id then connect_to fd c else c

unfoldable pub queue_of : List ℕ → Holder → List TcpMsg
unfolding lookup
queue_of id holder = elim (lookup id holder) [ none ↦ [] | some q ↦ q ]

-- while (!msg_holder[id_cl].empty()) { send(newsockfd, front); pop(); }
unfoldable pub drain : ℕ → List TcpMsg → List Action
drain fd [] = []
drain fd (msg ∷ q) = send fd msg ∷ drain fd q

abbrev pub watch : ℕ → Server → Server
watch fd s = record s { read_fds = fd ∷ s.read_fds; maxfd = max fd s.maxfd }

-- The state once the client is back.
unfoldable pub reconnected : Server → (fd : ℕ) (id : List ℕ) → Server
unfolding adjust each revive insert
reconnected s fd id = record (watch fd s) {
  clients = adjust id (connect_to fd) s.clients;
  topics_subs = each (each (revive id fd)) s.topics_subs;
  msg_holder = adjust id (λ _. []) (insert id [] s.msg_holder);
}

unfoldable pub reconnect : Server → (fd : ℕ) (id ip : List ℕ) (port : ℕ) → Outcome
unfolding reconnected queue_of drain
reconnect s fd id ip port =
    running (reconnected s fd id)
      (drain fd (queue_of id s.msg_holder) ++ (print (greeting id ip port) ∷ []))

unfoldable pub first_connection : Server → (fd : ℕ) (id ip : List ℕ) (port : ℕ) → Outcome
unfolding insert
first_connection s fd id ip port =
    running
      (record (watch fd s) {
        msg_holder = insert id [] s.msg_holder;
        clients = insert id (record { id = id; connected = 1; sf = 0; fd = fd }) s.clients;
      })
      (print (greeting id ip port) ∷ [])

abbrev pub refusal : (id : List ℕ) → List ℕ
refusal id = codes "Client " ++ (id ++ codes " already connected.\n")

-- The id is copied into ten bytes.
unfoldable pub on_request : Server → (fd : ℕ) (ip : List ℕ) (port : ℕ) (bytes : List ℕ) → Outcome
unfolding c_text lookup reconnect first_connection
on_request s fd ip port bytes =
    if terminated bytes && ltb (length (c_text bytes)) 10
    then (elim (lookup (c_text bytes) s.clients) [
      | none ↦ first_connection s fd (c_text bytes) ip port
      | some c ↦
          if c.connected == 0
          then reconnect s fd (c_text bytes) ip port
          else running s (print (refusal (c_text bytes)) ∷ close fd ∷ [])
    ])
    else fault
