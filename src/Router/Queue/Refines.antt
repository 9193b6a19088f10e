-- ===== src/Router/Queue/Refines.antt =====
-- The pointer queue of Tema_1/queue.c implements a first-in first-out list.
use communication_protocols.Base.{
  ℕ, ◌≡◌, ◌≢◌, ◌↔◌, refl, sym, subst, true, none, some, List, [], ◌∷◌, ◌++◌, arith,
}
use communication_protocols.Router.Queue.{
  Heap, null, load, Queue, queue_create, queue_empty, queue_enq, queue_deq,
}
use communication_protocols.Router.Queue.Chain.{
  Chain, last, link, frame, head-ne-null, linked, extend,
}

module _ {E : Type 0} where
  abbrev pub elements : List (ℕ × E) → List E
  elements [] = []
  elements ((_, e) ∷ cells) = e ∷ elements cells

  -- No cell and a null head, or a chain from the head to the tail. (The tail of an empty queue is
  -- anything: queue_deq leaves it pointing to the cell that it freed.)
  abbrev Shape : Heap E → ℕ → ℕ → List (ℕ × E) → Type 0
  Shape h t p [] = p ≡ null
  Shape h t p (c ∷ cells) = Chain h t p (c ∷ cells)

  -- The queue holds these elements, the oldest first.
  abbrev pub IsQueue : Heap E → Queue → List E → Type 0
  IsQueue h q xs = (cells : List (ℕ × E)) × (elements cells ≡ xs) × Shape h q.tail q.head cells

  elements-append :
      (cells : List (ℕ × E)) (a : ℕ) (e : E)
      → elements (cells ++ (a, e) ∷ []) ≡ elements cells ++ e ∷ []
  elements-append [] a e = refl
  elements-append ((_, f) ∷ cells) a e = rw (elements-append cells a e)

  tail-cell :
      {h : Heap E} {t p : ℕ} {xs : List (ℕ × E)}
      → Chain h t p xs
      → (f : E) × (load h t ≡ some (record { element = f; next = null }))
  tail-cell (last {e} n l) = (e, l)
  tail-cell (link n l out c) = tail-cell c

  -- Taking the first cell out: what the head holds, and the chain behind it once it is freed.
  chain_front :
      {h : Heap E} {t p : ℕ} (a : ℕ) (e : E) (cells : List (ℕ × E))
      → Chain h t p ((a, e) ∷ cells)
      → (r : ℕ) × (load h p ≡ some (record { element = e; next = r }))
        × (p ≢ null)
        × Shape ((p, none) ∷ h) t r cells
  chain_front a e [] (last n l) = (null, l, n, refl)
  chain_front a e [] (link n l out c) = elim c [ ]
  chain_front a e (c ∷ cells) (link {p} {q} n l out c') = (q, l, n, frame c' λ b i. ground arith)

-- What the code relies on in malloc: the address is not NULL, and nothing is allocated there.
pub record Malloc (E : Type 0) : Type 0 where
  pub malloc : Heap E → ℕ
  pub not_null : (h : Heap E) → malloc h ≢ null
  pub unused : (h : Heap E) → load h (malloc h) ≡ none

pub queue_create-IsQueue : {E : Type 0} → IsQueue {E = E} [] queue_create []
unfolding queue_create
queue_create-IsQueue = ([], refl, refl)

-- queue_empty answers true exactly on a queue that holds nothing.
pub queue_empty_lem :
    {E : Type 0} (h : Heap E) (q : Queue) (xs : List E)
    → IsQueue h q xs
    → (queue_empty q ≡ true) ↔ (xs ≡ [])
unfolding queue_empty
queue_empty_lem h q xs ([], e, s) = (λ _. sym e, λ _. ground arith)
queue_empty_lem h q xs (c ∷ cells, e, s) =
    let n : q.head ≢ null = head-ne-null s in (λ k. absurd (ground arith), λ k. absurd (cc (e, k)))

module _ {E : Type 0} (m : Malloc E) where
  -- What queue_enq leaves: the new queue and heap.
  Enqueued : E → Heap E → Queue → List E → Type 0
  Enqueued e h q xs =
      (q' : Queue) × (h' : Heap E) × (queue_enq m.malloc e q h ≡ some (q', h'))
      × IsQueue h' q' (xs ++ e ∷ [])

  enq_first : (e : E) (h : Heap E) (q : Queue) → q.head ≡ null → Enqueued e h q []
  unfolding queue_enq Enqueued
  enq_first e h q s =
      let a : ℕ = m.malloc h in
      (
        record { head = a; tail = a },
        (a, some (record { element = e; next = null })) ∷ h,
        ground arith,
        ((a, e) ∷ [], refl, last (m.not_null h) (ground arith)),
      )

  enq_next :
      (e : E) (h : Heap E) (q : Queue) (c : ℕ × E) (cells : List (ℕ × E))
      → Chain h q.tail q.head (c ∷ cells)
      → Enqueued e h q (elements (c ∷ cells))
  unfolding queue_enq Enqueued
  enq_next e h q c cells s =
      let a : ℕ = m.malloc h in
      let (f, l) = tail-cell s in
      let free : load h a ≡ none = m.unused h in
      (
        record q { tail = a },
        linked h q.tail a f e,
        ground (arith, head-ne-null s),
        (
          (c ∷ cells) ++ (a, e) ∷ [],
          elements-append (c ∷ cells) a e,
          extend a f e s l (m.not_null h) free,
        ),
      )

  -- queue_enq on a queue that holds xs returns, and leaves a queue that holds xs and then the
  -- element.
  pub queue_enq-IsQueue :
      (e : E) (h : Heap E) (q : Queue) (xs : List E)
      → IsQueue h q xs
      → (q' : Queue) × (h' : Heap E) × (queue_enq m.malloc e q h ≡ some (q', h'))
        × IsQueue h' q' (xs ++ e ∷ [])
  unfolding Enqueued
  queue_enq-IsQueue e h q xs ([], k, s) = subst (Enqueued e h q) k (enq_first e h q s)
  queue_enq-IsQueue e h q xs (c ∷ cells, k, s) = subst (Enqueued e h q) k (enq_next e h q c cells s)

module _ {E : Type 0} where
  -- queue_deq on a queue that holds x and then xs returns x, leaves a queue that holds xs, and frees
  -- the cell that the head pointed to.
  pub queue_deq-IsQueue :
      (x : E) (h : Heap E) (q : Queue) (xs : List E)
      → IsQueue h q (x ∷ xs)
      → (q' : Queue) × (h' : Heap E) × (queue_deq q h ≡ some (x, q', h'))
        × IsQueue h' q' xs
        × (load h' q.head ≡ none)
  unfolding queue_deq
  queue_deq-IsQueue x h q xs ([], k, s) = absurd (cc k)
  queue_deq-IsQueue x h q xs ((a, e) ∷ cells, k, s) =
      let (r, l, n, shape) = chain_front a e cells s in
      (
        record q { head = r },
        (q.head, none) ∷ h,
        ground arith,
        (cells, ground arith, shape),
        ground arith,
      )
