-- ===== src/Router/Queue/Interface.antt =====
-- What the router of Tema_1/router.c uses of its queue: operations and their laws over the list of
-- elements that the queue holds. The pointer queue of Tema_1/queue.c fills the interface, over any
-- malloc.
use communication_protocols.Base.{ap, ◌≡◌, Bool, true, Option, none, some, List, [], ◌∷◌, ◌++◌, ◌↔◌}
use communication_protocols.Router.Queue.{
  Heap, Queue, queue_create, queue_empty, queue_enq, queue_deq,
}
use communication_protocols.Router.Queue.Refines.{
  Malloc, IsQueue, queue_create-IsQueue, queue_empty_lem, queue_enq-IsQueue, queue_deq-IsQueue,
}

-- A fault of an operation is `none`.
pub record Fifo (E : Type 0) : Type 1 where
  pub Carrier : Type 0
  pub create : Carrier
  pub is_empty : Carrier → Bool
  pub enq : E → Carrier → Option Carrier
  pub deq : Carrier → Option (E × Carrier)
  pub Holds : Carrier → List E → Type 0
  pub create-Holds : Holds create []
  pub is_empty-Holds : (q : Carrier) (xs : List E) → Holds q xs → (is_empty q ≡ true) ↔ (xs ≡ [])
  pub enq-Holds :
      (e : E) (q : Carrier) (xs : List E)
      → Holds q xs
      → (q' : Carrier) × (enq e q ≡ some q') × Holds q' (xs ++ e ∷ [])
  pub deq-Holds :
      (e : E) (q : Carrier) (xs : List E)
      → Holds q (e ∷ xs)
      → (q' : Carrier) × (deq q ≡ some (e, q')) × Holds q' xs

module _ {E : Type 0} (m : Malloc E) where
  abbrev pub pointer_enq : E → Queue × Heap E → Option (Queue × Heap E)
  pointer_enq e (q, h) = queue_enq m.malloc e q h

  abbrev pub regroup : Option (E × Queue × Heap E) → Option (E × (Queue × Heap E))
  regroup none = none
  regroup (some (e, q, h)) = some (e, (q, h))

  abbrev pub pointer_deq : Queue × Heap E → Option (E × (Queue × Heap E))
  pointer_deq (q, h) = regroup (queue_deq q h)

  abbrev pub PointerHolds : Queue × Heap E → List E → Type 0
  PointerHolds (q, h) xs = IsQueue h q xs

  pub enq_law :
      (e : E) (q : Queue × Heap E) (xs : List E)
      → PointerHolds q xs
      → (q' : Queue × Heap E) × (pointer_enq e q ≡ some q') × PointerHolds q' (xs ++ e ∷ [])
  enq_law e (q, h) xs p =
      let (q', h', done, k) = queue_enq-IsQueue m e h q xs p in ((q', h'), done, k)

  pub deq_law :
      (e : E) (q : Queue × Heap E) (xs : List E)
      → PointerHolds q (e ∷ xs)
      → (q' : Queue × Heap E) × (pointer_deq q ≡ some (e, q')) × PointerHolds q' xs
  deq_law e (q, h) xs p =
      let (q', h', done, k, freed) = queue_deq-IsQueue e h q xs p in ((q', h'), ap regroup done, k)

  abbrev pub pointer_fifo : Fifo E
  pointer_fifo = record {
    Carrier = Queue × Heap E;
    create = (queue_create, []);
    is_empty = λ (q, h). queue_empty q;
    enq = pointer_enq;
    deq = pointer_deq;
    Holds = PointerHolds;
    create-Holds = queue_create-IsQueue;
    is_empty-Holds = λ (q, h) xs p. queue_empty_lem h q xs p;
    enq-Holds = enq_law;
    deq-Holds = deq_law;
  }
