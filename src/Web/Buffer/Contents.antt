-- ===== src/Web/Buffer/Contents.antt =====
-- The buffer of Tema_3/buffer.c holds the bytes that were added to it, in order.
use communication_protocols.Base.{
  ℕ, zero, suc, ◌+◌, ◌≡◌, refl, ap, ◌∙◌, ◌⊎◌, inl, inr, true, false, Option, none, some, List, [],
  ◌∷◌, ◌++◌, arith, length, length-append, replicate, length-replicate,
}
use communication_protocols.Web.Buffer.{
  Buffer, buffer_init, buffer_destroy, buffer_is_empty, realloc, memcpy, buffer_add,
}

-- The buffer's block, and its size, are those of `bs`; no block means no bytes.
pub record Contents (b : Buffer) (bs : List ℕ) : Type 0 where
  pub block : (b.block ≡ some bs) ⊎ ((b.block ≡ none) × (bs ≡ []))
  pub size : b.size ≡ length bs

memcpy-all : (d bs : List ℕ) → length d ≡ length bs → memcpy d 0 bs ≡ some bs
unfolding memcpy
memcpy-all [] [] e = refl
memcpy-all [] (b ∷ bs) e = absurd (omega arith)
memcpy-all (c ∷ d) [] e = absurd (omega arith)
memcpy-all (c ∷ d) (b ∷ bs) e = rw (memcpy-all d bs (omega arith))

memcpy-append :
    (xs d bs : List ℕ) → length d ≡ length bs → memcpy (xs ++ d) (length xs) bs ≡ some (xs ++ bs)
unfolding memcpy
memcpy-append [] d bs e = memcpy-all d bs e
memcpy-append (x ∷ xs) d bs e = rw (memcpy-append xs d bs e)

realloc-append :
    (junk : ℕ) (xs : List ℕ) (n m : ℕ)
    → m ≡ length xs + n
    → realloc junk m xs ≡ xs ++ replicate n junk
unfolding realloc
realloc-append junk [] zero m e = let z : m ≡ 0 = omega arith in rw z
realloc-append junk [] (suc n) m e =
    let z : m ≡ suc n = omega arith in rw (z, realloc-append junk [] n n (omega arith))
realloc-append junk (x ∷ xs) n m e =
    let z : m ≡ suc (length xs + n) = omega arith in
    rw (z, realloc-append junk xs n (length xs + n) refl)

abbrev buffer : Option (List ℕ) → ℕ → Buffer
buffer block size = record { block = block; size = size }

-- The buffer is determined by what it holds, and by whether it has a block.
Contents-cases :
    (b : Buffer) (bs : List ℕ)
    → Contents b bs
    → (b ≡ buffer (some bs) (length bs)) ⊎ ((b ≡ buffer none 0) × (bs ≡ []))
Contents-cases b bs c = elim c.block [
  | inl held ↦ inl (λ i. buffer (held i) (c.size i))
  | inr (absent, empty) ↦ inr ((λ i. buffer (absent i) ((c.size ∙ ap length empty) i)), empty)
]

add_held :
    (junk : ℕ) (bs new : List ℕ)
    → buffer_add junk (buffer (some bs) (length bs)) new
      ≡ some (buffer (some (bs ++ new)) (length bs + length new))
unfolding buffer_add
add_held junk bs new = rw (
  buffer_add,
  realloc-append junk bs (length new) (length bs + length new) refl,
  memcpy-append bs (replicate (length new) junk) new (length-replicate (length new) junk),
)

add_first :
    (junk : ℕ) (new : List ℕ)
    → buffer_add junk (buffer none 0) new ≡ some (buffer (some new) (0 + length new))
unfolding buffer_add memcpy
add_first junk new =
    rw (memcpy-all (replicate (length new) 0) new (length-replicate (length new) 0))

-- On a buffer that holds bs, buffer_add returns a buffer that holds bs and then the new bytes, without
-- an access outside the block, whatever realloc leaves in the bytes it adds.
pub buffer_add-Contents :
    (junk : ℕ) (b : Buffer) (bs new : List ℕ)
    → Contents b bs
    → (b' : Buffer) × (buffer_add junk b new ≡ some b') × Contents b' (bs ++ new)
buffer_add-Contents junk b bs new c = elim (Contents-cases b bs c) [
  | inl e ↦ (
    buffer (some (bs ++ new)) (length bs + length new),
    rw e (add_held junk bs new),
    record { block = inl refl; size = omega (arith, length-append bs new) },
  )
  | inr (e, empty) ↦ (
    buffer (some new) (0 + length new),
    rw e (add_first junk new),
    record { block = inl (rw empty); size = rw empty (omega arith) },
  )
]

-- A buffer that was initialised or destroyed holds nothing, and is empty; a buffer to which bytes
-- were added is not.
pub buffer_lifecycle :
    (junk : ℕ) (b b' : Buffer) (bs : List ℕ)
    → buffer_add junk b bs ≡ some b'
    → Contents buffer_init []
      × Contents (buffer_destroy b) []
      × (buffer_is_empty buffer_init ≡ true)
      × (buffer_is_empty (buffer_destroy b) ≡ true)
      × (buffer_is_empty b' ≡ false)
unfolding buffer_init buffer_destroy buffer_is_empty buffer_add
buffer_lifecycle junk b b' bs e = (
  record { block = inr (refl, refl); size = refl },
  record { block = inr (refl, refl); size = refl },
  refl,
  refl,
  ground arith,
)
