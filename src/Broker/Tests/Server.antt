-- ===== src/Broker/Tests/Server.antt =====
-- The theorems on the server of Tema_2 at concrete inputs, and a run.
use communication_protocols.Base.{
  ◌≡◌, refl, false, some, map, List, [], ◌∷◌, ◌++◌, codes, dec_lt, lt_wf,
}
use communication_protocols.CString.{is_prefix, decimal, decimal_acc, c_text}
use communication_protocols.Broker.Map.{lookup, insert, place, before, has, adjust, each, find_if}
use communication_protocols.Broker.Server.{step, prepend, run}
use communication_protocols.Broker.Command.{unwatch, cleared, disconnect, on_message}
use communication_protocols.Broker.Connect.{greeting, first_connection, on_request}
use communication_protocols.Broker.Publish.{on_datagram}
use communication_protocols.Broker.State.{
  Server, Action, send, print, close, running, request, message, padded, tcp_msg,
}
use communication_protocols.Broker.Server.Delivery.{Published, held, on_datagram-Published}
use communication_protocols.Broker.Server.Away.{
  Datagram, events, missed, forwarded, messages_while_away,
}
use communication_protocols.Broker.Server.Descriptors.{
  Dropped, in_set, disconnect-Dropped, exit_shadowed,
}
use communication_protocols.Broker.Server.Commands.{
  Subscribed, Unsubscribed, on_message-subscribe, on_message-unsubscribe,
}
use communication_protocols.Broker.Tests.Data.{
  empty, ann, bob, server, server-IsServer, news, ip, reused,
}

on_datagram-Published_example :
    (s' : Server) × (done : List Action) × (on_datagram server ip 4000 news ≡ running s' done)
    × Published server (c_text news) (tcp_msg ip 4000 news) s' done
unfolding c_text padded
on_datagram-Published_example = on_datagram-Published server ip 4000 news server-IsServer refl

abbrev sent_news : Datagram
sent_news = record { ip = ip; port = 4000; bytes = news }

messages_while_away_example :
    (s' : Server) × (run server
        (events (sent_news ∷ sent_news ∷ []) ++ (request 9 ip 5000 (codes "ann") ∷ []))
      ≡ running s' (
          forwarded server.topics_subs (sent_news ∷ sent_news ∷ [])
          ++ (map (send 9) (
                held (c_text (codes "ann")) server.msg_holder
                ++ missed (c_text (codes "ann")) server.topics_subs (sent_news ∷ sent_news ∷ []))
              ++ (print (greeting (c_text (codes "ann")) ip 5000) ∷ []))))
    × (held (c_text (codes "ann")) s'.msg_holder ≡ [])
    × (lookup (c_text (codes "ann")) s'.clients ≡ some (record ann { connected = 1; fd = 9 }))
unfolding c_text padded lookup
messages_while_away_example =
    messages_while_away server 9 ip 5000 (codes "ann") ann refl refl refl
      (sent_news ∷ sent_news ∷ []) server-IsServer (refl, (refl, tt))

disconnect-Dropped_example :
    (s' : Server) × (done : List Action) × (disconnect server 6 ≡ running s' done)
    × Dropped server 6 s' done
disconnect-Dropped_example = disconnect-Dropped server 6

exit_shadowed_example :
    (s' : Server) × (on_message reused 5 (codes "exit\n")
      ≡ running s'
          (close 5 ∷ print (codes "Client " ++ (codes "ann" ++ codes " disconnected.\n")) ∷ []))
    × (in_set 5 s'.read_fds ≡ false)
    × (lookup (c_text (codes "bob")) s'.clients ≡ some (record bob { fd = 5 }))
    × (on_request s' 7 ip 5000 (codes "bob")
        ≡ running s' (
            print (codes "Client " ++ (c_text (codes "bob") ++ codes " already connected.\n"))
            ∷ close 7
            ∷ []))
unfolding c_text is_prefix find_if lookup
exit_shadowed_example =
    exit_shadowed reused 5 7 5000 (codes "ann") ip (codes "exit\n") (codes "bob") ann
      (record bob { fd = 5 }) refl refl refl refl refl refl refl refl

on_message-subscribe_example :
    (s' : Server) × (on_message server 6 (codes "subscribe sport 1\n") ≡ running s' [])
    × Subscribed server (codes "sport") (codes "bob") bob b'1' s'
unfolding c_text find_if
on_message-subscribe_example =
    on_message-subscribe server 6 b'1' (codes "subscribe sport 1\n") (codes "sport") (codes "\n")
      (codes "bob") bob refl refl (refl, (refl, (refl, (refl, (refl, tt))))) (refl, (refl, tt)) refl
      refl

on_message-unsubscribe_example :
    (s' : Server) × (on_message server 6 (codes "unsubscribe news") ≡ running s' [])
    × Unsubscribed server 6 (codes "news") s'
unfolding c_text
on_message-unsubscribe_example =
    on_message-unsubscribe server 6 (codes "unsubscribe news") (codes "news") server-IsServer refl
      refl (refl, (refl, (refl, (refl, tt))))

-- Ann leaves, Bob gets her descriptor, leaves, and is refused as he comes back.
shadowed_run :
    run empty (
      request 5 ip 5000 (codes "ann")
      ∷ message 5 (codes "exit\n")
      ∷ request 5 ip 5001 (codes "bob")
      ∷ message 5 (codes "exit\n")
      ∷ request 5 ip 5002 (codes "bob")
      ∷ [])
    ≡ running
        (record {
          topics_subs = [];
          clients =
              (codes "ann", record { id = codes "ann"; connected = 0; sf = 0; fd = 5 })
              ∷ (codes "bob", record { id = codes "bob"; connected = 1; sf = 0; fd = 5 })
              ∷ [];
          msg_holder = (codes "ann", []) ∷ (codes "bob", []) ∷ [];
          read_fds = [];
          maxfd = 5;
        })
        (print (codes "New client ann connected from 10.0.0.1:5000.\n")
          ∷ close 5
          ∷ print (codes "Client ann disconnected.\n")
          ∷ print (codes "New client bob connected from 10.0.0.1:5001.\n")
          ∷ close 5
          ∷ print (codes "Client ann disconnected.\n")
          ∷ print (codes "Client bob already connected.\n")
          ∷ close 5
          ∷ [])
unfolding run step prepend on_request on_message disconnect cleared first_connection c_text insert
    has place before lookup adjust each find_if unwatch is_prefix decimal decimal_acc lt_wf dec_lt
shadowed_run = refl
