-- ===== src/Router/Checksum.antt =====
-- ip_checksum and icmp_checksum of Tema_1/skel.c. The region that the code walks by a pointer is
-- the list of its bytes, and `addr` is the region's address, whose low bits the code looks at.
-- The accumulator of ip_checksum is a uint64_t, and the wrap is written out. Its last loop recurses
-- on the accessibility of the accumulator, which falls in each round.
pub mod Sum
pub mod Rfc
pub mod Icmp
use communication_protocols.Base.{
  ℕ, suc, ◌+◌, ◌-◌, ◌*◌, ◌/◌, ◌%◌, ◌^◌, ◌<◌, List, [], ◌∷◌, ◌++◌, arith, Acc, dite, dec_lt, ltb,
  ◌==◌, if◌then◌else◌, length, take, drop, replicate, get_or, lt_wf,
}
use communication_protocols.Router.Bytes.{htons, ntohl}

-- ntohl of a word of four bytes that was set to 0 before `w` was copied into it.
abbrev pub word_of : List ℕ → ℕ
word_of w = ntohl (get_or w 0 0) (get_or w 1 0) (get_or w 2 0) (get_or w 3 0)

-- acc += w
abbrev pub add64 : ℕ → ℕ → ℕ
add64 acc w = (acc + w) % 2 ^ 64

-- The complete 32-bit blocks, and the partial block at the end.
pub sum_words : ℕ → List ℕ → ℕ
sum_words acc [] = acc
sum_words acc (a ∷ []) = add64 acc (word_of (a ∷ []))
sum_words acc (a ∷ b ∷ []) = add64 acc (word_of (a ∷ b ∷ []))
sum_words acc (a ∷ b ∷ c ∷ []) = add64 acc (word_of (a ∷ b ∷ c ∷ []))
sum_words acc (a ∷ b ∷ c ∷ d ∷ r) = sum_words (add64 acc (ntohl a b c d)) r

-- The partial block at the start, of `4 - offset` bytes or as many as there are.
pub lead_count : ℕ → List ℕ → ℕ
lead_count offset bs = if ltb (length bs) (4 - offset) then length bs else 4 - offset

pub sum_region : ℕ → List ℕ → ℕ
unfolding sum_words
sum_region offset bs =
    if offset == 0
    then sum_words 0xffff bs
    else sum_words (add64 0xffff (word_of (replicate offset 0 ++ take (lead_count offset bs) bs)))
        (drop (lead_count offset bs) bs)

-- while (acc >> 16) acc = (acc & 0xffff) + (acc >> 16);
pub fold_carry : (acc : ℕ) → Acc ◌<◌ acc → ℕ
fold_carry acc (Acc.intro _ smaller) =
    dite (dec_lt acc 65536) (λ _. acc)
      (λ big.
        fold_carry (acc % 65536 + acc / 65536) (smaller (acc % 65536 + acc / 65536) (omega arith)))

-- The whole deferred carry: the high half first, then the loop.
pub fold64 : ℕ → ℕ
unfolding fold_carry lt_wf dec_lt
fold64 acc = let half : ℕ = acc % 2 ^ 32 + acc / 2 ^ 32 in fold_carry half (lt_wf.apply half)

-- ((acc & 0xff00) >> 8) | ((acc & 0x00ff) << 8)
pub swap_bytes : ℕ → ℕ
swap_bytes acc = (acc / 256) % 256 + (acc % 256) * 256

-- The result is the value of type uint16_t; `~acc` is taken of a uint64_t and cut to 16 bits.
unfoldable pub ip_checksum : ℕ → List ℕ → ℕ
unfolding sum_region lead_count fold64 swap_bytes
ip_checksum addr bs =
    let acc : ℕ = fold64 (sum_region (addr % 4) bs) in
    htons ((2 ^ 64 - 1 - (if (addr % 4) % 2 == 1 then swap_bytes acc else acc)) % 65536)

-- while (size > 1) cksum += *buffer++; then the odd byte. The words are read in host order.
pub icmp_sum : ℕ → List ℕ → ℕ
icmp_sum cksum [] = cksum
icmp_sum cksum (a ∷ []) = add64 cksum a
icmp_sum cksum (a ∷ b ∷ r) = icmp_sum (add64 cksum (a + 256 * b)) r

unfoldable pub icmp_checksum : List ℕ → ℕ
unfolding icmp_sum
icmp_checksum bs =
    let cksum : ℕ = icmp_sum 0 bs in
    let half : ℕ = cksum / 65536 + cksum % 65536 in
    let all : ℕ = add64 half (half / 65536) in (2 ^ 64 - 1 - all) % 65536
