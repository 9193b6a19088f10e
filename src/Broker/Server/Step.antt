-- ===== src/Broker/Server/Step.antt =====
-- Every step of Tema_2/server.cpp keeps the shape of its state.
use communication_protocols.Base.{inl, inr, Bool-cases, List, [], ◌∷◌, codes}
use communication_protocols.CString.{same}
use communication_protocols.Broker.Server.{step, prepend, run}
use communication_protocols.Broker.State.{
  Server, Action, Outcome, running, stopped, died, fault, Event, line, datagram, request, message,
  recv_failed,
}
use communication_protocols.Broker.Server.WellFormed.{IsServer}
use communication_protocols.Broker.Server.Keeps.{Keeps, on_datagram-Keeps, on_request-Keeps}
use communication_protocols.Broker.Server.Messages.{on_message-Keeps}

pub step-Keeps : (s : Server) (e : Event) → IsServer s → Keeps (step s e)
unfolding step
step-Keeps s (line buff) v = elim (Bool-cases (same buff (codes "exit\n"))) [
  | inl e ↦ rw e tt
  | inr e ↦ rw e tt
]
step-Keeps s (datagram ip port bytes) v = on_datagram-Keeps s ip port bytes v
step-Keeps s (request fd ip port bytes) v = on_request-Keeps s fd ip port bytes v
step-Keeps s (message fd bytes) v = on_message-Keeps s fd bytes v
step-Keeps s recv_failed v = tt

prepend-Keeps : (done : List Action) (o : Outcome) → Keeps o → Keeps (prepend done o)
unfolding prepend
prepend-Keeps done (running s more) v = v
prepend-Keeps done stopped v = tt
prepend-Keeps done died v = tt
prepend-Keeps done fault v = tt

-- Over any events, as long as the server goes on, no topic, client or subscription stands twice in
-- its maps, a client stands under its own id, in `clients` and in every topic, and the call of select
-- covers every descriptor of the read set.
pub run-IsServer : (s : Server) (es : List Event) → IsServer s → Keeps (run s es)
unfolding run
run-IsServer s [] v = v
run-IsServer s (e ∷ es) v = go (step s e) (step-Keeps s e v) (λ s' w. run-IsServer s' es w)
  where
    go :
        (o : Outcome)
        → Keeps o
        → ((s' : Server) → IsServer s' → Keeps (run s' es))
        → Keeps (elim o as (λ _. Outcome) [
          | running s' done ↦ prepend done (run s' es)
          | stopped ↦ stopped
          | died ↦ died
          | fault ↦ fault
        ])
    go (running s' done) w rest = prepend-Keeps done (run s' es) (rest s' w)
    go stopped w rest = tt
    go died w rest = tt
    go fault w rest = tt
