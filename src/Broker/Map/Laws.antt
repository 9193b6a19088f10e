-- ===== src/Broker/Map/Laws.antt =====
-- The laws of the maps of Tema_2/server.cpp: what a look-up gives after each operation.
use communication_protocols.Base.{
  ℕ, ◌≡◌, refl, Bool, true, false, Option, none, some, List, [], ◌∷◌, arith, if◌then◌else◌,
}
use communication_protocols.CString.{same, same_iff}
use communication_protocols.Broker.Map.{
  Map, lookup, has, place, insert, adjust, each, erase, find_if,
}

pub same_refl : (k : List ℕ) → same k k ≡ true
same_refl k = (same_iff k k).1 refl

module _ {V : Type 0} where
  abbrev pub on_some : (V → V) → Option V → Option V
  on_some f none = none
  on_some f (some v) = some (f v)

  pub lookup-each :
      (k : List ℕ) (f : V → V) (m : Map V) → lookup k (each f m) ≡ on_some f (lookup k m)
  unfolding lookup each
  lookup-each k f [] = refl
  lookup-each k f ((j, v) ∷ m) = ground (arith, lookup-each k f m)

  pub lookup-adjust :
      (k j : List ℕ) (f : V → V) (m : Map V)
      → lookup j (adjust k f m) ≡ (if same k j then on_some f (lookup j m) else lookup j m)
  unfolding lookup adjust
  lookup-adjust k j f [] = ground arith
  lookup-adjust k j f ((i, v) ∷ m) =
      ground (arith, lookup-adjust k j f m, same_iff k j, same_iff k i, same_iff j i)

  lookup-place :
      (k j : List ℕ) (v : V) (m : Map V)
      → lookup k m ≡ none
      → lookup j (place k v m) ≡ (if same k j then some v else lookup j m)
  unfolding lookup place
  lookup-place k j v [] h = ground (arith, same_iff k j, same_iff j k)
  lookup-place k j v ((i, w) ∷ m) h =
      ground (arith, lookup-place k j v m, same_iff k j, same_iff j k, same_iff k i, same_iff j i)

  -- The value that a key has after an insertion.
  abbrev pub kept_or : V → Option V → Option V
  kept_or v none = some v
  kept_or v (some w) = some w

  pub lookup-insert :
      (k j : List ℕ) (v : V) (m : Map V)
      → lookup j (insert k v m) ≡ (if same k j then kept_or v (lookup j m) else lookup j m)
  unfolding insert has
  lookup-insert k j v m = ground (arith, lookup-place k j v m, same_iff k j)

  -- No key stands twice.
  abbrev pub IsUnique : Map V → Type 0
  IsUnique [] = Unit {0}
  IsUnique ((k, v) ∷ m) = (lookup k m ≡ none) × IsUnique m

  pub lookup-erase :
      (k j : List ℕ) (m : Map V)
      → IsUnique m
      → lookup j (erase k m) ≡ (if same k j then none else lookup j m)
  unfolding lookup erase
  lookup-erase k j [] u = ground arith
  lookup-erase k j ((i, v) ∷ m) u =
      ground (arith, lookup-erase k j m u.1, same_iff k j, same_iff k i, same_iff j i)

  pub each-IsUnique : (f : V → V) (m : Map V) → IsUnique m → IsUnique (each f m)
  unfolding each
  each-IsUnique f [] u = tt
  each-IsUnique f ((j, v) ∷ m) u = (ground (arith, lookup-each j f m), each-IsUnique f m u.1)

  pub adjust-IsUnique : (k : List ℕ) (f : V → V) (m : Map V) → IsUnique m → IsUnique (adjust k f m)
  unfolding adjust
  adjust-IsUnique k f [] u = tt
  adjust-IsUnique k f ((j, v) ∷ m) u =
      ground (arith, lookup-adjust k j f m, adjust-IsUnique k f m u.1)

  place-IsUnique :
      (k : List ℕ) (v : V) (m : Map V) → lookup k m ≡ none → IsUnique m → IsUnique (place k v m)
  unfolding place lookup
  place-IsUnique k v [] h u = (refl, tt)
  place-IsUnique k v ((j, w) ∷ m) h u =
      ground (arith, lookup-place k j v m, place-IsUnique k v m, same_iff k j, same_iff j k)

  pub insert-IsUnique : (k : List ℕ) (v : V) (m : Map V) → IsUnique m → IsUnique (insert k v m)
  unfolding insert has
  insert-IsUnique k v m u = ground (arith, place-IsUnique k v m)

  pub erase-IsUnique : (k : List ℕ) (m : Map V) → IsUnique m → IsUnique (erase k m)
  unfolding erase
  erase-IsUnique k [] u = tt
  erase-IsUnique k ((j, v) ∷ m) u = ground (arith, lookup-erase k j m u.1, erase-IsUnique k m u.1)

  -- What a loop with a break finds is an entry that passes the test.
  pub find_if-lookup :
      (test : V → Bool) (m : Map V) (k : List ℕ) (v : V)
      → IsUnique m
      → find_if test m ≡ some (k, v)
      → (lookup k m ≡ some v) × (test v ≡ true)
  unfolding find_if lookup
  find_if-lookup test [] k v u e = absurd (cc e)
  find_if-lookup test ((j, w) ∷ m) k v u e =
      ground (arith, find_if-lookup test m k v u.1, same_iff k j, same_refl k)

  pub find_if-none :
      (test : V → Bool) (m : Map V) (k : List ℕ) (v : V)
      → find_if test m ≡ none
      → lookup k m ≡ some v
      → test v ≡ false
  unfolding find_if lookup
  find_if-none test [] k v e h = absurd (cc h)
  find_if-none test ((j, w) ∷ m) k v e h = ground (arith, find_if-none test m k v)
