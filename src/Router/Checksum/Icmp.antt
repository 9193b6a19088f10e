-- ===== src/Router/Checksum/Icmp.antt =====
-- icmp_checksum of Tema_1/skel.c: a message that carries its own checksum sums to zero.
use communication_protocols.Base.{
  ℕ, ◌+◌, ◌-◌, ◌*◌, ◌/◌, ◌%◌, ◌^◌, ◌≤◌, ◌<◌, ◌≡◌, List, [], ◌∷◌, ◌++◌, arith, length, length-append,
}
use communication_protocols.Router.Bytes.{AllBytes, AllBytes-insert, bytes16}
use communication_protocols.Router.Checksum.{add64, icmp_sum, icmp_checksum}

-- The sum of the little-endian words.
unfoldable pub host_sum : List ℕ → ℕ
host_sum [] = 0
host_sum (a ∷ []) = a
host_sum (a ∷ b ∷ r) = a + 256 * b + host_sum r

host_sum-le : (bs : List ℕ) → AllBytes bs → host_sum bs ≤ 65535 * length bs
unfolding host_sum
host_sum-le [] h = omega arith
host_sum-le (a ∷ []) h = omega arith
host_sum-le (a ∷ b ∷ r) h = omega (arith, host_sum-le r h.1.1)

icmp_sum_lem :
    (acc : ℕ) (bs : List ℕ)
    → AllBytes bs
    → acc + 65536 * length bs < 2 ^ 64
    → icmp_sum acc bs ≡ acc + host_sum bs
unfolding icmp_sum host_sum
icmp_sum_lem acc [] h fit = omega arith
icmp_sum_lem acc (a ∷ []) h fit = omega arith
icmp_sum_lem acc (a ∷ b ∷ r) h fit =
    omega (arith, icmp_sum_lem (add64 acc (a + 256 * b)) r h.1.1 (omega arith))

host_sum-append :
    (k : ℕ) (pre bs : List ℕ)
    → length pre ≡ 2 * k
    → host_sum (pre ++ bs) ≡ host_sum pre + host_sum bs
unfolding host_sum
host_sum-append k [] bs e = omega arith
host_sum-append k (a ∷ []) bs e = absurd (omega arith)
host_sum-append k (a ∷ b ∷ r) bs e = omega (arith, host_sum-append (k - 1) r bs)

-- Two folds are enough for the sum of less than 65536 words.
folded : ℕ → ℕ
folded s = let half : ℕ = s / 65536 + s % 65536 in (2 ^ 64 - 1 - add64 half (half / 65536)) % 65536

icmp_checksum_lem :
    (bs : List ℕ) → AllBytes bs → length bs < 65536 → icmp_checksum bs ≡ folded (host_sum bs)
unfolding icmp_checksum folded
icmp_checksum_lem bs h fit = rw (icmp_sum_lem 0 bs h (omega arith)) (omega arith)

folded_complement : (s : ℕ) → s < 65535 * 65536 → folded (s + folded s) ≡ 0
unfolding folded
folded_complement s h = omega arith

folded-lt : (s : ℕ) → folded s < 65536
unfolding folded
folded-lt s = omega arith

host_sum-insert :
    (k v : ℕ) (pre post : List ℕ)
    → length pre ≡ 2 * k
    → v < 65536
    → host_sum (pre ++ (bytes16 v ++ post)) ≡ host_sum (pre ++ 0 ∷ 0 ∷ post) + v
unfolding host_sum
host_sum-insert k v pre post e h =
    omega
      (arith, host_sum-append k pre (bytes16 v ++ post) e, host_sum-append k pre (0 ∷ 0 ∷ post) e)

-- Storing what icmp_checksum computes over a message whose checksum field is 0 into that field makes
-- icmp_checksum of the message 0; the field starts at an even offset, and the message holds less
-- than 65536 bytes.
pub icmp_checksum_verifies :
    (k : ℕ) (pre post : List ℕ)
    → length pre ≡ 2 * k
    → AllBytes (pre ++ post)
    → length pre + length post < 65534
    → icmp_checksum (pre ++ (bytes16 (icmp_checksum (pre ++ 0 ∷ 0 ∷ post)) ++ post)) ≡ 0
icmp_checksum_verifies k pre post e h fit =
    rw
      (
        icmp_checksum_lem (pre ++ 0 ∷ 0 ∷ post) zeros short,
        icmp_checksum_lem (pre ++ (bytes16 (folded s) ++ post))
            (AllBytes-insert pre post (bytes16 (folded s)) h (omega arith))
            (omega (arith, length-append pre (bytes16 (folded s) ++ post))),
        host_sum-insert k (folded s) pre post e (folded-lt s),
      )
      (folded_complement s (omega (arith, short, host_sum-le (pre ++ 0 ∷ 0 ∷ post) zeros)))
  where
    s : ℕ
    s = host_sum (pre ++ 0 ∷ 0 ∷ post)

    zeros : AllBytes (pre ++ 0 ∷ 0 ∷ post)
    zeros = AllBytes-insert pre post (0 ∷ 0 ∷ []) h (omega arith)

    short : length (pre ++ 0 ∷ 0 ∷ post) < 65536
    short = omega (arith, length-append pre (0 ∷ 0 ∷ post))
