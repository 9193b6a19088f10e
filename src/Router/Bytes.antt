-- ===== src/Router/Bytes.antt =====
-- Memory as the router's code sees it: a payload is a table from offsets to bytes (the array
-- `payload` of `packet` in Tema_1/include/skel.h), and the header structs are overlays at fixed
-- offsets. The host is little-endian, so a wire (big-endian) word is read swapped.
pub mod Store
use communication_protocols.Base.{
  ℕ, zero, suc, ◌+◌, ◌*◌, ◌/◌, ◌%◌, ◌<◌, ◌≡◌, List, [], ◌∷◌, ◌++◌, arith, ◌==◌, if◌then◌else◌,
}

abbrev pub Payload : Type 0
Payload = ℕ → ℕ

-- Every cell holds a byte.
abbrev pub IsBytes : Payload → Type 0
IsBytes p = (i : ℕ) → p i < 256

abbrev pub AllBytes : List ℕ → Type 0
AllBytes [] = Unit {0}
AllBytes (b ∷ bs) = (b < 256) × AllBytes bs

-- p[i] = b
abbrev pub put : Payload → ℕ → ℕ → Payload
put p i b = λ j. if j == i then b else p j

-- memcpy(p + i, bs, length of bs)
abbrev pub store : Payload → ℕ → List ℕ → Payload
store p i [] = p
store p i (b ∷ bs) = store (put p i b) (i + 1) bs

-- The `n` bytes from offset `i` on.
abbrev pub slice : Payload → ℕ → ℕ → List ℕ
slice p i zero = []
slice p i (suc n) = p i ∷ slice p (i + 1) n

-- uint16_t and uint32_t at an offset, as the little-endian host reads and writes them.
abbrev pub load16 : Payload → ℕ → ℕ
load16 p i = p i + 256 * p (i + 1)

abbrev pub load32 : Payload → ℕ → ℕ
load32 p i = p i + 256 * p (i + 1) + 65536 * p (i + 2) + 16777216 * p (i + 3)

abbrev pub bytes16 : ℕ → List ℕ
bytes16 v = v % 256 ∷ (v / 256) % 256 ∷ []

abbrev pub bytes32 : ℕ → List ℕ
bytes32 v = v % 256 ∷ (v / 256) % 256 ∷ (v / 65536) % 256 ∷ (v / 16777216) % 256 ∷ []

-- htons, and ntohs, which is the same function.
abbrev pub htons : ℕ → ℕ
htons v = (v % 256) * 256 + (v / 256) % 256

-- The value that ntohl gives for the word whose bytes in memory are these.
abbrev pub ntohl : ℕ → ℕ → ℕ → ℕ → ℕ
ntohl a b c d = 16777216 * a + 65536 * b + 256 * c + d

pub htons-htons : (v : ℕ) → v < 65536 → htons (htons v) ≡ v
htons-htons v h = omega arith

pub AllBytes-insert :
    (xs ys zs : List ℕ) → AllBytes (xs ++ ys) → AllBytes zs → AllBytes (xs ++ (zs ++ ys))
AllBytes-insert [] ys [] h k = h
AllBytes-insert [] ys (z ∷ zs) h k = (k.0, AllBytes-insert [] ys zs h k.1)
AllBytes-insert (x ∷ xs) ys zs h k = (h.0, AllBytes-insert xs ys zs h.1 k)
