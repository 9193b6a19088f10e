-- ===== src/Web/Transport/Answers.antt =====
-- What an answer of receive_from_server of Tema_3/helpers.c says of the reads.
use communication_protocols.Base.{
  ℕ, ◌+◌, ◌≡◌, refl, sym, subst, ap, ◌∙◌, true, List, [], ◌∷◌, ◌++◌, append_assoc, append-nil,
  arith, ◌==◌, length, map, suc, ◌≤◌, none, if◌then◌else◌, drop,
}
use communication_protocols.Web.Buffer.{tolower}
use communication_protocols.Web.Buffer.Find.{occurs}
use communication_protocols.Web.Buffer.Contents.{Contents}
use communication_protocols.Web.Transport.{
  Read, got, Answer, Header, read_failed, header, header_waits, header_exits, header_faults,
  returned, waits, exits, faults, content_length, strtol,
}

abbrev pub together : List (List ℕ) → List ℕ
together [] = []
together (bytes ∷ r) = bytes ++ together r

-- The reads without bytes, which tell that the connection has ended.
abbrev pub empties : List (List ℕ) → ℕ
empties [] = 0
empties (bytes ∷ r) = if length bytes == 0 then suc (empties r) else empties r

pub empties-cons :
    (bytes : List ℕ) (r : List (List ℕ)) → empties (bytes ∷ r) ≡ empties (bytes ∷ []) + empties r
empties-cons bytes r = ground arith

-- The reads are the used ones and the rest, `bytes` are those of the used ones behind bs, and at most so
-- many of the used ones are empty.
abbrev pub Used : (most : ℕ) (bs : List ℕ) → List Read → (bytes : List ℕ) → List Read → Type 0
Used most bs rs bytes rest =
    (used : List (List ℕ)) × (rs ≡ map got used ++ rest)
    × (bytes ≡ bs ++ together used)
    × (empties used ≤ most)

-- All the reads succeeded, and at most so many of them are empty.
abbrev pub All : (most : ℕ) → List Read → Type 0
All most rs = (used : List (List ℕ)) × (rs ≡ map got used) × (empties used ≤ most)

-- Some reads succeeded, and the next one failed.
abbrev pub Failed : List Read → Type 0
Failed rs = (used : List (List ℕ)) × (rest : List Read) × (rs ≡ map got used ++ read_failed ∷ rest)

-- The bytes of some reads have the name of the length in them, and end before its digits do.
abbrev pub IsCut : (bs : List ℕ) → Type 0
IsCut bs =
    (k : ℕ) × (occurs (λ a c. tolower a == tolower c) bs content_length k ≡ true)
    × (strtol (drop (k + 16) bs) ≡ none)

abbrev pub Cut : (bs : List ℕ) → List Read → Type 0
Cut bs rs =
    (used : List (List ℕ)) × (rest : List Read) × (rs ≡ map got used ++ rest)
    × IsCut (bs ++ together used)

-- What an answer says of the reads, when the buffer held bs before them: a string is bs, the bytes of
-- the reads that were used, and a zero.
abbrev pub Explains : (most : ℕ) (bs : List ℕ) → List Read → Answer → Type 0
Explains most bs rs (returned bytes rest) =
    (out : List ℕ) × Used (suc most) bs rs out rest × (bytes ≡ out ++ (0 ∷ []))
Explains most bs rs waits = All most rs
Explains most bs rs exits = Failed rs
Explains most bs rs faults = Cut bs rs

abbrev pub HeaderExplains : (bs : List ℕ) → List Read → Header → Type 0
HeaderExplains bs rs (header b e n rest) = (out : List ℕ) × Used 1 bs rs out rest × Contents b out
HeaderExplains bs rs header_waits = All 0 rs
HeaderExplains bs rs header_exits = Failed rs
HeaderExplains bs rs header_faults = Cut bs rs

pub use_none : (most : ℕ) (bs : List ℕ) (rs : List Read) → Used most bs rs bs rs
use_none most bs rs = ([], refl, sym (append-nil bs), omega arith)

-- One more read in front.
module _ (bs new : List ℕ) (rs : List Read) (n m : ℕ) (more : empties (new ∷ []) + n ≤ m) where
  pub use_one :
      (bytes : List ℕ) (rest : List Read)
      → Used n (bs ++ new) rs bytes rest
      → Used m bs (got new ∷ rs) bytes rest
  use_one bytes rest (used, split, whole, few) = (
    new ∷ used,
    ap (λ (l : List Read). got new ∷ l) split,
    whole ∙ append_assoc bs new (together used),
    omega (arith, empties-cons new used),
  )

  pub every_one : All n rs → All m (got new ∷ rs)
  every_one (used, split, few) =
      (new ∷ used, ap (λ (l : List Read). got new ∷ l) split, omega (arith, empties-cons new used))

pub fails_one : (new : List ℕ) (rs : List Read) → Failed rs → Failed (got new ∷ rs)
fails_one new rs (used, rest, split) = (new ∷ used, rest, ap (λ (l : List Read). got new ∷ l) split)

pub shorten_one : (bs new : List ℕ) (rs : List Read) → Cut (bs ++ new) rs → Cut bs (got new ∷ rs)
shorten_one bs new rs (used, rest, split, cut) = (
  new ∷ used,
  rest,
  ap (λ (l : List Read). got new ∷ l) split,
  subst IsCut (append_assoc bs new (together used)) cut,
)

pub explain_one :
    (bs new : List ℕ) (rs : List Read) (n m : ℕ) (a : Answer)
    → empties (new ∷ []) + n ≤ m
    → Explains n (bs ++ new) rs a
    → Explains m bs (got new ∷ rs) a
explain_one bs new rs n m (returned bytes rest) more (out, u, end) =
    (out, use_one bs new rs (suc n) (suc m) (omega arith) out rest u, end)
explain_one bs new rs n m waits more h = every_one bs new rs n m more h
explain_one bs new rs n m exits more h = fails_one new rs h
explain_one bs new rs n m faults more h = shorten_one bs new rs h

pub header_one :
    (bs new : List ℕ) (rs : List Read) (a : Header)
    → empties (new ∷ []) ≡ 0
    → HeaderExplains (bs ++ new) rs a
    → HeaderExplains bs (got new ∷ rs) a
header_one bs new rs (header b e n rest) some_bytes (out, u, held) =
    (out, use_one bs new rs 1 1 (omega arith) out rest u, held)
header_one bs new rs header_waits some_bytes h = every_one bs new rs 0 0 (omega arith) h
header_one bs new rs header_exits some_bytes h = fails_one new rs h
header_one bs new rs header_faults some_bytes h = shorten_one bs new rs h

explain_more :
    (bs : List ℕ) (rs : List Read) (n m : ℕ) (a : Answer)
    → n ≤ m
    → Explains n bs rs a
    → Explains m bs rs a
explain_more bs rs n m (returned bytes rest) le (out, (used, split, whole, few), end) =
    (out, (used, split, whole, omega arith), end)
explain_more bs rs n m waits le (used, split, few) = (used, split, omega arith)
explain_more bs rs n m exits le h = h
explain_more bs rs n m faults le h = h

explain_many :
    (bs : List ℕ) (used : List (List ℕ)) (rs : List Read) (n m : ℕ) (a : Answer)
    → empties used + n ≤ m
    → Explains n (bs ++ together used) rs a
    → Explains m bs (map got used ++ rs) a
explain_many bs [] rs n m a more h =
    explain_more bs rs n m a (omega arith) (subst (λ l. Explains n l rs a) (append-nil bs) h)
explain_many bs (new ∷ used) rs n m a more h =
    explain_one bs new (map got used ++ rs) (empties used + n) m a
      (omega (arith, empties-cons new used))
      (explain_many (bs ++ new) used rs n (empties used + n) a (omega arith)
        (subst (λ l. Explains n l rs a) (sym (append_assoc bs new (together used))) h))

pub explain_rest :
    (all rest : List Read) (out : List ℕ) (a : Answer)
    → Used 1 [] all out rest
    → Explains 0 out rest a
    → Explains 1 [] all a
explain_rest all rest out a (used, split, whole, few) h =
    subst (λ l. Explains 1 [] l a) (sym split)
      (explain_many [] used rest 0 1 a (omega arith) (subst (λ l. Explains 0 l rest a) whole h))
