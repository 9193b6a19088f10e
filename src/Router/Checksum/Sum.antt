-- ===== src/Router/Checksum/Sum.antt =====
-- The accumulators of ip_checksum (Tema_1/skel.c) against the sum of the region's 16-bit words.
use communication_protocols.Base.{
  ℕ, ◌+◌, ◌*◌, ◌/◌, ◌%◌, ◌^◌, ◌≤◌, ◌<◌, ◌≡◌, List, [], ◌∷◌, arith, Acc, dif_pos, dif_neg, le_prop,
  dec_lt, length, lt_wf,
}
use communication_protocols.Router.Bytes.{AllBytes, ntohl}
use communication_protocols.Router.Checksum.{add64, sum_words, fold_carry, fold64, swap_bytes}

-- The sum of the big-endian 16-bit words; an odd last byte is the high half of a word.
unfoldable pub sum16 : List ℕ → ℕ
sum16 [] = 0
sum16 (a ∷ []) = a * 256
sum16 (a ∷ b ∷ r) = a * 256 + b + sum16 r

-- The representative in 1 .. 65535 of a number modulo 65535.
abbrev pub ones_sum : ℕ → ℕ
ones_sum s = (s + 65534) % 65535 + 1

-- What an accumulator that started at `acc` holds after a region of sum `s`: no wrap of the 64
-- bits, and the sum modulo 65535.
pub record Sums (acc s result : ℕ) : Type 0 where
  pub grows : acc ≤ result
  pub fits : result < 2 ^ 64
  pub congruent : result % 65535 ≡ (acc + s) % 65535

pub sum_words-Sums :
    (acc : ℕ) (bs : List ℕ)
    → AllBytes bs
    → acc + 2 ^ 32 * (length bs + 1) < 2 ^ 64
    → Sums acc (sum16 bs) (sum_words acc bs)
unfolding sum_words sum16
sum_words-Sums acc [] h fit = omega arith
sum_words-Sums acc (a ∷ []) h fit = omega arith
sum_words-Sums acc (a ∷ b ∷ []) h fit = omega arith
sum_words-Sums acc (a ∷ b ∷ c ∷ []) h fit = omega arith
sum_words-Sums acc (a ∷ b ∷ c ∷ d ∷ r) h fit =
    omega (arith, sum_words-Sums (add64 acc (ntohl a b c d)) r h.1.1.1.1 (omega arith))

-- One byte further on, each byte is in the other half of its word.
pub sum16_shift : (a : ℕ) (bs : List ℕ) → (256 * sum16 (a ∷ bs)) % 65535 ≡ (a + sum16 bs) % 65535
unfolding sum16
sum16_shift a [] = omega arith
sum16_shift a (b ∷ []) = omega arith
sum16_shift a (b ∷ c ∷ r) = omega (arith, sum16_shift c r)

-- The loop leaves the representative of a positive accumulator.
pub fold_carry_lem : (acc : ℕ) (w : Acc ◌<◌ acc) → 0 < acc → fold_carry acc w ≡ ones_sum acc
unfolding fold_carry
fold_carry_lem acc (Acc.intro _ smaller) h = elim (dec_lt acc 65536) [
  | yes small ↦ rw (dif_pos (dec_lt acc 65536) le_prop small) (omega arith)
  | no big ↦ rw (dif_neg (dec_lt acc 65536) big) (
      omega (
        arith,
        fold_carry_lem (acc % 65536 + acc / 65536)
            (smaller (acc % 65536 + acc / 65536) (omega arith)),
      ))
]

pub fold64_lem : (acc : ℕ) → 0 < acc → acc < 2 ^ 64 → fold64 acc ≡ ones_sum acc
unfolding fold64
fold64_lem acc h fit =
    let half : ℕ = acc % 2 ^ 32 + acc / 2 ^ 32 in
    omega (arith, fold_carry_lem half (lt_wf.apply half))

pub swap_bytes-ones_sum : (s : ℕ) → swap_bytes (ones_sum s) ≡ ones_sum (256 * s)
unfolding swap_bytes
swap_bytes-ones_sum s = omega arith
