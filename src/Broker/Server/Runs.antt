-- ===== src/Broker/Server/Runs.antt =====
-- How a run of Tema_2/server.cpp goes on behind its first steps.
use communication_protocols.Base.{◌≡◌, refl, ap, ◌∙◌, List, [], ◌∷◌, ◌++◌, append-nil, append_assoc}
use communication_protocols.Broker.Server.{step, prepend, run}
use communication_protocols.Broker.State.{
  Server, Action, Outcome, running, stopped, died, fault, Event,
}

pub run-cons :
    (s s' : Server) (e : Event) (es : List Event) (done : List Action)
    → step s e ≡ running s' done
    → run s (e ∷ es) ≡ prepend done (run s' es)
unfolding run
run-cons s s' e es done h = rw (h, run)

pub prepend-append :
    (xs ys : List Action) (o : Outcome) → prepend xs (prepend ys o) ≡ prepend (xs ++ ys) o
unfolding prepend
prepend-append xs ys (running s done) = rw append_assoc
prepend-append xs ys stopped = refl
prepend-append xs ys died = refl
prepend-append xs ys fault = refl

pub run-one :
    (s s' : Server) (e : Event) (done : List Action)
    → step s e ≡ running s' done
    → run s (e ∷ []) ≡ running s' done
unfolding run prepend
run-one s s' e done h = run-cons s s' e [] done h ∙ ap (running s') (append-nil done)

pub prepend-nil : (o : Outcome) → prepend [] o ≡ o
unfolding prepend
prepend-nil (running s done) = refl
prepend-nil stopped = refl
prepend-nil died = refl
prepend-nil fault = refl
