-- ===== src/Web/Buffer.antt =====
-- The byte buffer of Tema_3/buffer.c. `data` is NULL or the allocated block. An access outside a
-- block is a fault, `none`. `junk` is the value of the bytes that realloc adds, which are
-- indeterminate; malloc does not fail. A `-1` of the searches is `some none`.
pub mod Contents
pub mod Find
use communication_protocols.Base.{
  ℕ, zero, suc, ◌+◌, ◌-◌, Bool, true, false, ◌&&◌, Option, none, some, List, [], ◌∷◌, ltb, leb,
  ◌==◌, if◌then◌else◌, length, get_elem?, replicate,
}

pub record Buffer : Type 0 where
  pub block : Option (List ℕ)
  pub size : ℕ

unfoldable pub buffer_init : Buffer
buffer_init = record { block = none; size = 0 }

-- The block is freed, and the pointer reset.
unfoldable pub buffer_destroy : Buffer → Buffer
buffer_destroy b = record b { block = none; size = 0 }

unfoldable pub buffer_is_empty : Buffer → Bool
buffer_is_empty b = elim b.block [ none ↦ true | some _ ↦ false ]

-- realloc to `n` bytes
unfoldable pub realloc : ℕ → ℕ → List ℕ → List ℕ
realloc junk zero d = []
realloc junk (suc n) [] = junk ∷ realloc junk n []
realloc junk (suc n) (b ∷ d) = b ∷ realloc junk n d

-- memcpy(block + offset, bs, length of bs)
unfoldable pub memcpy : List ℕ → ℕ → List ℕ → Option (List ℕ)
memcpy d zero [] = some d
memcpy [] zero (b ∷ bs) = none
memcpy (c ∷ d) zero (b ∷ bs) = elim (memcpy d zero bs) [ none ↦ none | some r ↦ some (b ∷ r) ]
memcpy [] (suc i) bs = none
memcpy (c ∷ d) (suc i) bs = elim (memcpy d i bs) [ none ↦ none | some r ↦ some (c ∷ r) ]

unfoldable pub buffer_add : ℕ → Buffer → List ℕ → Option Buffer
buffer_add junk b bs =
    let d : List ℕ = elim b.block [
      | some d ↦ realloc junk (b.size + length bs) d
      | none ↦ replicate (length bs) 0
    ] in
    elim (memcpy d b.size bs) [
      | none ↦ none
      | some d' ↦ some (record { block = some d'; size = b.size + length bs })
    ]

-- tolower in the C locale
unfoldable pub tolower : ℕ → ℕ
tolower c = if leb b'A' c && leb c b'Z' then c + 32 else c

-- The inner loop at position `i`: whether j reaches data_size, or an access outside the block.
unfoldable pub compare_at : (ℕ → ℕ → Bool) → List ℕ → ℕ → List ℕ → Option Bool
compare_at eq d i [] = some true
compare_at eq d i (c ∷ cs) =
    let rest = compare_at eq d (i + 1) cs in
    elim (get_elem? d i) [ none ↦ none | some b ↦ if eq b c then rest else some false ]

-- The outer loop from `i` on, for `n` more positions.
unfoldable pub find_loop : (ℕ → ℕ → Bool) → List ℕ → List ℕ → ℕ → ℕ → Option (Option ℕ)
find_loop eq d cs i zero = some none
find_loop eq d cs i (suc n) =
    let rest = find_loop eq d cs (i + 1) n in
    elim (compare_at eq d i cs) [ none ↦ none | some true ↦ some (some i) | some false ↦ rest ]

-- A buffer without a block has size 0, and is read only for an empty needle, that is, not at all.
unfoldable pub find_by : (ℕ → ℕ → Bool) → Buffer → List ℕ → Option (Option ℕ)
find_by eq b cs =
    if ltb b.size (length cs)
    then some none
    else find_loop eq (elim b.block [ none ↦ [] | some d ↦ d ]) cs 0 (b.size - length cs + 1)

unfoldable pub buffer_find : Buffer → List ℕ → Option (Option ℕ)
buffer_find = find_by (λ a c. a == c)

unfoldable pub buffer_find_insensitive : Buffer → List ℕ → Option (Option ℕ)
buffer_find_insensitive = find_by (λ a c. tolower a == tolower c)
