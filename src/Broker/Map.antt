-- ===== src/Broker/Map.antt =====
-- std::map<string, V>, as server.cpp of Tema_2 uses it: the entries in the order of their keys, which
-- is the order of iteration. An iterator is the key it stands at.
pub mod Laws
use communication_protocols.Base.{
  ℕ, Bool, true, false, Option, none, some, List, [], ◌∷◌, ltb, ◌==◌, if◌then◌else◌,
}
use communication_protocols.CString.{same}

abbrev pub Map : Type 0 → Type 0
Map V = List (List ℕ × V)

-- The order of std::string.
unfoldable pub before : List ℕ → List ℕ → Bool
before s [] = false
before [] (d ∷ t) = true
before (c ∷ s) (d ∷ t) = if c == d then before s t else ltb c d

module _ {V : Type 0} where
  unfoldable pub lookup : List ℕ → Map V → Option V
  lookup k [] = none
  lookup k ((j, v) ∷ m) = if same k j then some v else lookup k m

  -- m.count(k) > 0
  unfoldable pub has : List ℕ → Map V → Bool
  unfolding lookup
  has k m = elim (lookup k m) [ none ↦ false | some _ ↦ true ]

  -- A new key at its place.
  unfoldable pub place : List ℕ → V → Map V → Map V
  unfolding before
  place k v [] = (k, v) ∷ []
  place k v ((j, w) ∷ m) =
      let rest = place k v m in if before k j then (k, v) ∷ (j, w) ∷ m else (j, w) ∷ rest

  -- m.insert({k, v}), which leaves a key that is there as it is; m[k] with `v` the default value.
  unfoldable pub insert : List ℕ → V → Map V → Map V
  unfolding has place
  insert k v m = if has k m then m else place k v m

  -- it->second = f(it->second), at the key
  unfoldable pub adjust : List ℕ → (V → V) → Map V → Map V
  adjust k f [] = []
  adjust k f ((j, v) ∷ m) =
      let rest = adjust k f m in if same k j then (j, f v) ∷ m else (j, v) ∷ rest

  -- for (it = m.begin(); it != m.end(); ++it) it->second = f(it->second)
  unfoldable pub each : (V → V) → Map V → Map V
  each f [] = []
  each f ((j, v) ∷ m) = (j, f v) ∷ each f m

  -- m.erase(it)
  unfoldable pub erase : List ℕ → Map V → Map V
  erase k [] = []
  erase k ((j, v) ∷ m) = let rest = erase k m in if same k j then m else (j, v) ∷ rest

  -- for (it = …) if (test(it->second)) { …; break; }
  unfoldable pub find_if : (V → Bool) → Map V → Option (List ℕ × V)
  find_if test [] = none
  find_if test ((j, v) ∷ m) = let rest = find_if test m in if test v then some (j, v) else rest
