-- ===== src/Web/Transport/Serves.antt =====
-- A request and its answer over a connection to an HTTP server, Tema_3/helpers.c.
use communication_protocols.Base.{
  ℕ, ◌<◌, ◌≡◌, refl, ap, true, some, List, [], ◌∷◌, ◌++◌, map, length,
}
use communication_protocols.Web.Transport.{
  Read, got, System, Status, returned, open_connection, exchange,
}
use communication_protocols.Web.Transport.Answers.{together}
use communication_protocols.Web.Transport.Sending.{Accepts, send_to_server_whole}
use communication_protocols.Web.Transport.Whole.{NonEmpty, receive_from_server_whole}
use communication_protocols.Web.Transport.Head.{IsHttp}

-- The system opens the connection, takes the message, and gives an HTTP answer with a length.
pub record Serves (sys : System) (message head body : List ℕ) : Type 0 where
  pub sockfd : ℕ
  pub opened : sys.socket ≡ some sockfd
  pub connected : sys.connects ≡ true
  pub takes : Accepts (length message) sys.writes
  pub enough : length message < length sys.writes
  pub pieces : List (List ℕ)
  pub rest : List Read
  pub reads : sys.reads ≡ map got pieces ++ rest
  pub some_bytes : NonEmpty pieces
  pub whole : together pieces ≡ head ++ body
  pub http : IsHttp head body

module _ (junk : ℕ) (sys : System) (message head body : List ℕ)
    (serves : Serves sys message head body) where
  pub opens : open_connection sys ≡ some serves.sockfd
  unfolding open_connection
  opens = rw (serves.opened, serves.connected, open_connection) refl

  -- The server gets the whole message and the client the whole answer.
  pub exchange-Serves :
      exchange junk sys message ≡ (message, returned ((head ++ body) ++ (0 ∷ [])) serves.rest)
  unfolding exchange
  exchange-Serves =
      let sent = send_to_server_whole message sys.writes serves.takes serves.enough in
      let answered =
        receive_from_server_whole head body serves.http junk serves.rest serves.pieces
          serves.some_bytes serves.whole in
      rw (opens, sent, serves.reads, answered, exchange)
        (ap (λ (r : List ℕ × Status). (r.0, returned ((head ++ body) ++ (0 ∷ [])) serves.rest))
          sent)
