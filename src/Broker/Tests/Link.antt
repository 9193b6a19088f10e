-- ===== src/Broker/Tests/Link.antt =====
-- The theorems on the two programs of Tema_2 from their start on, and on what goes between them, at
-- concrete inputs.
use communication_protocols.Base.{
  ℕ, ◌+◌, ◌%◌, ◌^◌, ◌≤◌, ◌≡◌, true, none, if◌then◌else◌, refl, some, List, [], ◌∷◌, ◌==◌, arith,
  codes,
}
use communication_protocols.CString.{
  same, atoi, scan_int, skip_spaces, number, scan_digits, decimal, c_text,
}
use communication_protocols.Broker.Map.{lookup}
use communication_protocols.Broker.Command.{on_message}
use communication_protocols.Broker.Connect.{greeting, on_request}
use communication_protocols.Broker.State.{
  Event, buflen, Server, print, running, request, message, padded, tcp_msg,
}
use communication_protocols.Broker.Server.Keeps.{Keeps}
use communication_protocols.Broker.Start.{Sockets, serve, serve-Keeps}
use communication_protocols.Broker.Server.Delivery.{subscription}
use communication_protocols.Broker.Subscriber.{
  FloatText, Connection, connect, going, sends, prints, type_at, data_at, wire, byte_at, long_at,
  decode, type_name, report, on_received, on_typed, ◌>>=◌,
}
use communication_protocols.Broker.Subscriber.Decode.{reading, decode-integer}
use communication_protocols.Broker.Subscriber.Report.{on_received-wire}
use communication_protocols.Broker.Link.{connect_accepted, unsubscribe_line, unsubscribe_keeps}
use communication_protocols.Broker.Tests.Data.{empty, server, server-IsServer, news, ip}

abbrev sockets : Sockets
sockets = record {
  udp = some 3;
  tcp = some 4;
  binds_udp = λ port. port == 8080;
  binds_tcp = λ port. port == 8080;
  listens = true;
}

rising : (udp tcp : ℕ) → sockets.udp ≡ some udp → sockets.tcp ≡ some tcp → udp ≤ tcp
rising udp tcp e f = ground arith

abbrev arrivals : List Event
arrivals =
    request 5 ip 5000 (codes "C1")
    ∷ request 6 ip 5001 (codes "C2")
    ∷ message 6 (codes "exit\n")
    ∷ []

serve-Keeps_example : Keeps (serve (codes "server" ∷ codes "8080" ∷ []) sockets arrivals)
serve-Keeps_example = serve-Keeps sockets rising (codes "server" ∷ codes "8080" ∷ []) arrivals

abbrev connection : Connection
connection = record {
  socket = some 3;
  inet_aton = λ text. if same text (codes "127.0.0.1") then some 0x0100007f else none;
  connects = λ address port. port == 8080;
  takes = true;
}

port_number : atoi (codes "8080") ≡ 8080
unfolding atoi scan_int skip_spaces number scan_digits
port_number = refl

reached : connection.connects 0x0100007f (atoi (codes "8080") % 2 ^ 16) ≡ true
reached = rw port_number

connect_accepted_example :
    (connect (codes "subscriber" ∷ codes "C9" ∷ codes "127.0.0.1" ∷ codes "8080" ∷ []) connection
      ≡ going (sends (padded buflen (codes "C9")) ∷ []))
    × ((s' : Server) × (on_request empty 5 ip 5000 (padded buflen (codes "C9"))
          ≡ running s' (print (greeting (codes "C9") ip 5000) ∷ []))
        × (lookup (codes "C9") s'.clients
            ≡ some (record { id = codes "C9"; connected = 1; sf = 0; fd = 5 })))
unfolding lookup
connect_accepted_example =
    connect_accepted (codes "C9") (refl, (refl, tt)) (codes "subscriber") (codes "127.0.0.1")
      (codes "8080") [] connection 3 0x0100007f refl refl reached refl empty 5 ip 5000 (omega arith)
      refl

unsubscribe_keeps_example :
    (on_typed (unsubscribe_line (codes "news"))
      ≡ going (
          sends (padded 1600 (unsubscribe_line (codes "news")))
          ∷ prints (codes "Unsubscribed from topic.\n")
          ∷ []))
    × ((s' : Server) × (on_message server 6 (padded 1600 (unsubscribe_line (codes "news")))
          ≡ running s' [])
        × ((j : List ℕ)
            → subscription (codes "news") j s'.topics_subs
              ≡ subscription (codes "news") j server.topics_subs))
unsubscribe_keeps_example =
    unsubscribe_keeps (codes "news") (refl, (refl, (refl, (refl, tt))))
      (refl, (refl, (refl, (refl, tt)))) (omega arith) server 6 server-IsServer

-- Texts that stand for the floating-point numbers.
abbrev floats : FloatText
floats = record { short_real = decimal; float = λ n power. decimal n }

decode-integer_example :
    (text : List ℕ) × (decode floats news ≡ some text)
    × (reading text ≡ (byte_at news data_at == 1, long_at news (data_at + 1)))
unfolding padded
decode-integer_example = decode-integer floats news refl

on_received-wire_example : on_received floats (wire (tcp_msg ip 4000 news)) ≡ (
    decode floats (padded 1551 news) >>= λ text. going (
      prints (
        report (c_text ip) 4000 (c_text news) (type_name (byte_at (padded 1551 news) type_at)) text)
      ∷ []))
unfolding c_text padded
on_received-wire_example =
    on_received-wire ip 4000 news floats (omega arith) (omega arith) (omega arith)
