-- ===== src/Web/Transport/Exchange.antt =====
-- A request and its answer over a connection, Tema_3/helpers.c.
use communication_protocols.Base.{
  ℕ, ◌<◌, ◌≡◌, refl, inl, inr, ap, true, some, Option-cases, List, [], length,
}
use communication_protocols.Web.Transport.{
  System, Status, waiting, exited, finished, Answer, waits, exits, send_to_server,
  receive_from_server, open_connection, exchange,
}
use communication_protocols.Web.Transport.Sending.{
  Accepts, send_to_server_whole, IsPrefix, send_to_server-IsPrefix,
}
use communication_protocols.Web.Transport.Answers.{Explains}
use communication_protocols.Web.Transport.Receiving.{receive_from_server-Explains}

-- If socket and connect succeed, and the system takes the writes, at least one byte of what is left by
-- each, and answers one write more than the message has bytes: the server gets the whole message. A
-- string that is returned is the bytes of the reads that were used, none lost or repeated, and a zero,
-- whatever realloc leaves in the bytes it adds. The client waits only if every read succeeded and at
-- most one was empty, exits only at a read that fails, and reads past the block only if that ends
-- before the digits of the length do.
pub exchange_whole :
    (junk sockfd : ℕ) (sys : System) (message : List ℕ)
    → sys.socket ≡ some sockfd
    → sys.connects ≡ true
    → Accepts (length message) sys.writes
    → length message < length sys.writes
    → ((exchange junk sys message).0 ≡ message)
      × Explains 1 [] sys.reads (exchange junk sys message).1
unfolding exchange open_connection
exchange_whole junk sockfd sys message opened connected takes enough =
    let whole = send_to_server_whole message sys.writes takes enough in
    rw (exchange, open_connection, opened, connected, whole)
      (ap (λ (r : List ℕ × Status). r.0) whole, receive_from_server-Explains junk sys.reads)

-- What the server gets of a message is a prefix of it, whatever the system answers.
pub exchange-IsPrefix :
    (junk : ℕ) (sys : System) (message : List ℕ) → IsPrefix (exchange junk sys message).0 message
unfolding exchange
exchange-IsPrefix junk sys message = elim (Option-cases (open_connection sys)) [
  | inl e ↦ rw (e, exchange) (message, refl)
  | inr (sockfd, e) ↦
      rw (e, exchange)
        (at_status (send_to_server message sys.writes).1
          (send_to_server-IsPrefix message sys.writes))
]
  where
    at_status :
        (status : Status)
        → IsPrefix (send_to_server message sys.writes).0 message
        → IsPrefix
            (elim status as (λ _. List ℕ × Answer) [
              | waiting ↦ ((send_to_server message sys.writes).0, waits)
              | exited ↦ ((send_to_server message sys.writes).0, exits)
              | finished ↦
                  ((send_to_server message sys.writes).0, receive_from_server junk sys.reads)
            ]).0
            message
    at_status waiting h = h
    at_status exited h = h
    at_status finished h = h
