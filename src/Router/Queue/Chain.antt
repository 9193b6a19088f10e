-- ===== src/Router/Queue/Chain.antt =====
-- What a queue of Tema_1/queue.c stands for: the cells that its pointers lead through.
use communication_protocols.Base.{
  ℕ, ◌≡◌, ◌≢◌, Bool, true, false, ◌||◌, Option, none, some, List, [], ◌∷◌, ◌++◌, arith, ◌==◌,
}
use communication_protocols.Router.Queue.{Cell, Heap, null, load}

abbrev cell : {E : Type 0} → E → ℕ → Option (Cell E)
cell e q = some (record { element = e; next = q })

module _ {E : Type 0} where
  -- The address occurs among the cells.
  abbrev pub has : ℕ → List (ℕ × E) → Bool
  has a [] = false
  has a ((p, _) ∷ xs) = (a == p) || has a xs

  -- From `p` the `next` pointers lead through distinct cells to the last one, at `t`.
  pub data Chain (h : Heap E) (t : ℕ) : ℕ → List (ℕ × E) → Type 0 where
    last : {e : E} → t ≢ null → load h t ≡ cell e null → Chain h t t ((t, e) ∷ [])
    link :
        {p q : ℕ} {e : E} {xs : List (ℕ × E)}
        → p ≢ null
        → load h p ≡ cell e q
        → has p xs ≡ false
        → Chain h t q xs
        → Chain h t p ((p, e) ∷ xs)

module _ {E : Type 0} where
  -- A chain survives a change that spares its cells.
  pub frame :
      {h g : Heap E} {t p : ℕ} {xs : List (ℕ × E)}
      → Chain h t p xs
      → ((a : ℕ) → has a xs ≡ true → load g a ≡ load h a)
      → Chain g t p xs
  frame {t = t} (last n e) same = last n (ground (arith, same t))
  frame (link {p} n e out c) same =
      link n (ground (arith, same p)) out (frame c λ a i. same a (ground arith))

  pub head-ne-null : {h : Heap E} {t p : ℕ} {xs : List (ℕ × E)} → Chain h t p xs → p ≢ null
  head-ne-null (last n e) = n
  head-ne-null (link n e out c) = n

  pub has-tail : {h : Heap E} {t p : ℕ} {xs : List (ℕ × E)} → Chain h t p xs → has t xs ≡ true
  has-tail (last n e) = ground arith
  has-tail (link n e out c) = ground (arith, has-tail c)

  -- The cells of a chain are allocated.
  pub not-has_of_none :
      {h : Heap E} {t p : ℕ} {xs : List (ℕ × E)} (a : ℕ)
      → Chain h t p xs
      → load h a ≡ none
      → has a xs ≡ false
  not-has_of_none a (last n e) unused = ground arith
  not-has_of_none a (link n e out c) unused = ground (arith, not-has_of_none a c unused)

  has-append :
      (a : ℕ) (xs : List (ℕ × E)) (p : ℕ) (e : E)
      → has a (xs ++ (p, e) ∷ []) ≡ (has a xs || (a == p))
  has-append a [] p e = ground arith
  has-append a ((q, f) ∷ xs) p e = ground (arith, has-append a xs p e)

  -- The heap after a new cell at `a` was linked behind the cell at `t`, whose element is `f`.
  abbrev pub linked : Heap E → ℕ → ℕ → E → E → Heap E
  linked h t a f e = (t, cell f a) ∷ (a, cell e null) ∷ h

  -- Linking a fresh cell behind the last one appends it to the chain.
  pub extend :
      {h : Heap E} {t p : ℕ} {xs : List (ℕ × E)} (a : ℕ) (f e : E)
      → Chain h t p xs
      → load h t ≡ cell f 0
      → a ≢ null
      → load h a ≡ none
      → Chain (linked h t a f e) a p (xs ++ (a, e) ∷ [])
  extend {t} a f e (last {e = e'} n l) lt na unused =
      link {p = t} {q = a} {e = e'} n (ground arith) (ground arith) (last na (ground arith))
  extend {t} a f e (link {p} {q} {e = g} {xs} n l out c) lt na unused =
      link n (ground (arith, apart t (has-tail c), allocated)) (rw (has-append, out) (ground arith))
        (extend a f e c lt na unused)
    where
      apart : (b : ℕ) → has b xs ≡ true → p ≢ b
      apart b i s = ground arith

      allocated : p ≢ a
      allocated s = ground arith
