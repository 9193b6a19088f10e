-- ===== src/Broker/Publish.antt =====
-- A datagram in the loop of Tema_2/server.cpp: it goes to the connected subscribers of its topic, and
-- is queued for others.
--
-- struct client has padding behind `sf`; it is 0, as memset leaves it, so that strcmp(&sf, "1") reads
-- one character.
use communication_protocols.Base.{ℕ, Bool, none, some, List, [], ◌∷◌, ◌++◌, ◌==◌, if◌then◌else◌}
use communication_protocols.CString.{c_text}
use communication_protocols.Broker.Map.{Map, lookup, insert, adjust}
use communication_protocols.Broker.State.{
  Client, TcpMsg, Holder, Server, Action, send, Outcome, running, fault, terminated, tcp_msg,
}

-- msg_holder[id].push(msg)
unfoldable pub push : List ℕ → TcpMsg → Holder → Holder
unfolding insert adjust
push id msg holder = adjust id (λ q. q ++ (msg ∷ [])) (insert id [] holder)

abbrev pub is_connected : Client → Bool
is_connected c = c.connected == 1

-- What a subscriber that is not connected leaves in the queues.
unfoldable pub hold : TcpMsg → Client → Holder → Holder
unfolding push
hold msg c holder =
    if is_connected c then holder else if c.sf == b'1' then push c.id msg holder else holder

-- The loop over the subscribers of a topic.
unfoldable pub deliver : TcpMsg → Map Client → Holder → Holder × List Action
unfolding hold
deliver msg [] holder = (holder, [])
deliver msg ((k, c) ∷ subs) holder =
    let rest = deliver msg subs (hold msg c holder) in
    (rest.0, if is_connected c then send c.fd msg ∷ rest.1 else rest.1)

unfoldable pub on_datagram : Server → (ip : List ℕ) (port : ℕ) (bytes : List ℕ) → Outcome
unfolding c_text tcp_msg lookup insert deliver
on_datagram s ip port bytes =
    if terminated bytes
    then (elim (lookup (c_text bytes) s.topics_subs) [
      | none ↦ running (record s { topics_subs = insert (c_text bytes) [] s.topics_subs }) []
      | some subs ↦
          let r = deliver (tcp_msg ip port bytes) subs s.msg_holder in
          running (record s { msg_holder = r.0 }) r.1
    ])
    else fault
