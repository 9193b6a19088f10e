-- ===== src/Router/Queue.antt =====
-- The pointer queue of Tema_1/queue.c over the cells of Tema_1/list.c. The heap is the log of the
-- writes to it, the last one first; a cell that was freed reads `none`. `malloc` is a parameter: the
-- address that the allocator answers for a heap. Access to a cell that is not allocated, and the
-- failed assertion of queue_deq, are faults, `none`. The two pointers of the struct are a record.
pub mod Chain
pub mod Refines
pub mod Interface
use communication_protocols.Base.{ℕ, Bool, Option, none, some, List, [], ◌∷◌, ◌==◌, if◌then◌else◌}

pub record Cell (E : Type 0) : Type 0 where
  pub element : E
  pub next : ℕ

abbrev pub Heap : Type 0 → Type 0
Heap E = List (ℕ × Option (Cell E))

-- NULL
abbrev pub null : ℕ
null = 0

module _ {E : Type 0} where
  -- *p
  abbrev pub load : Heap E → ℕ → Option (Cell E)
  load [] p = none
  load ((a, c) ∷ h) p = if p == a then c else load h p

  -- cons(element, l), where malloc answered `fresh`
  pub cons : ℕ → E → ℕ → Heap E → ℕ × Heap E
  cons fresh element l h = (fresh, (fresh, some (record { element = element; next = l })) ∷ h)

  pub cdr_and_free : ℕ → Heap E → Option (ℕ × Heap E)
  cdr_and_free l h = elim (load h l) [ none ↦ none | some c ↦ some (c.next, (l, none) ∷ h) ]

-- struct queue
pub record Queue : Type 0 where
  pub head : ℕ
  pub tail : ℕ

unfoldable pub queue_create : Queue
queue_create = record { head = null; tail = null }

unfoldable pub queue_empty : Queue → Bool
queue_empty q = q.head == null

module _ {E : Type 0} (malloc : Heap E → ℕ) where
  unfoldable pub queue_enq : E → Queue → Heap E → Option (Queue × Heap E)
  unfolding cons queue_empty
  queue_enq element q h =
      let (a, h') = cons (malloc h) element null h in
      if queue_empty q then some (record { head = a; tail = a }, h') else elim (load h' q.tail) [
        | none ↦ none
        | some c ↦ some (record q { tail = a }, (q.tail, some (record c { next = a })) ∷ h')
      ]

module _ {E : Type 0} where
  unfoldable pub queue_deq : Queue → Heap E → Option (E × Queue × Heap E)
  unfolding cdr_and_free queue_empty
  queue_deq q h = if queue_empty q then none else elim (load h q.head) [
    | none ↦ none
    | some c ↦ elim (cdr_and_free q.head h) [
      | none ↦ none
      | some (l, h') ↦ some (c.element, record q { head = l }, h')
    ]
  ]
