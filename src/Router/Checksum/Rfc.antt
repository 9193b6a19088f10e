-- ===== src/Router/Checksum/Rfc.antt =====
-- ip_checksum (Tema_1/skel.c) is the Internet checksum of RFC 1071, at any address of the data, and a
-- header that carries its own checksum sums to zero.
use communication_protocols.Base.{
  ℕ, zero, suc, ◌+◌, ◌-◌, ◌*◌, ◌%◌, ◌^◌, ◌≤◌, ◌<◌, ◌≡◌, ap, ◌∙◌, ◌↔◌, List, [], ◌∷◌, ◌++◌, arith,
  length, length-append, ◌==◌, if◌then◌else◌,
}
use communication_protocols.Router.Bytes.{AllBytes, AllBytes-insert, htons, bytes16, htons-htons}
use communication_protocols.Router.Checksum.{
  add64, word_of, lead_count, sum_region, fold64, swap_bytes, ip_checksum,
}
use communication_protocols.Router.Checksum.Sum.{
  sum16, ones_sum, Sums, sum_words-Sums, sum16_shift, fold64_lem, swap_bytes-ones_sum,
}

-- The weight of the region's words in the accumulator, for the data's offset in its block.
abbrev weight : ℕ → ℕ
weight zero = 1
weight (suc zero) = 256
weight (suc (suc zero)) = 1
weight (suc (suc (suc n))) = 256

reweigh :
    {acc acc' s t result : ℕ}
    → Sums acc' s result
    → acc ≤ acc'
    → (acc' + s) % 65535 ≡ (acc + t) % 65535
    → Sums acc t result
reweigh p h e = omega arith

-- The partial block is whole where the data is long enough.
lead_full : (offset : ℕ) (bs : List ℕ) → 4 - offset ≤ length bs → lead_count offset bs ≡ 4 - offset
unfolding lead_count
lead_full offset bs h = ground arith

lead_short : (offset : ℕ) (bs : List ℕ) → length bs < 4 - offset → lead_count offset bs ≡ length bs
unfolding lead_count
lead_short offset bs h = ground arith

sum_region-Sums :
    (offset : ℕ) (bs : List ℕ)
    → offset < 4
    → AllBytes bs
    → length bs < 65536
    → Sums 0xffff (weight offset * sum16 bs) (sum_region offset bs)
unfolding sum_region sum16
sum_region-Sums zero bs o h fit =
    reweigh (sum_words-Sums 0xffff bs h (omega arith)) (omega arith) (omega arith)
sum_region-Sums (suc zero) [] o h fit = rw (lead_short 1 [] (omega arith)) (omega arith)
sum_region-Sums (suc zero) (a ∷ []) o h fit = rw (lead_short 1 (a ∷ []) (omega arith)) (omega arith)
sum_region-Sums (suc zero) (a ∷ b ∷ []) o h fit =
    rw (lead_short 1 (a ∷ b ∷ []) (omega arith)) (omega arith)
sum_region-Sums (suc zero) (a ∷ b ∷ c ∷ r) o h fit =
    rw (lead_full 1 (a ∷ b ∷ c ∷ r) (omega arith)) (
      reweigh (sum_words-Sums (add64 0xffff (word_of (0 ∷ a ∷ b ∷ c ∷ []))) r h.1.1.1 (omega arith))
        (omega arith) (omega (arith, sum16_shift c r)))
sum_region-Sums (suc (suc zero)) [] o h fit = rw (lead_short 2 [] (omega arith)) (omega arith)
sum_region-Sums (suc (suc zero)) (a ∷ []) o h fit =
    rw (lead_short 2 (a ∷ []) (omega arith)) (omega arith)
sum_region-Sums (suc (suc zero)) (a ∷ b ∷ r) o h fit = rw (lead_full 2 (a ∷ b ∷ r) (omega arith)) (
    reweigh (sum_words-Sums (add64 0xffff (word_of (0 ∷ 0 ∷ a ∷ b ∷ []))) r h.1.1 (omega arith))
      (omega arith) (omega arith))
sum_region-Sums (suc (suc (suc zero))) [] o h fit = rw (lead_short 3 [] (omega arith)) (omega arith)
sum_region-Sums (suc (suc (suc zero))) (a ∷ r) o h fit = rw (lead_full 3 (a ∷ r) (omega arith)) (
    reweigh (sum_words-Sums (add64 0xffff (word_of (0 ∷ 0 ∷ 0 ∷ a ∷ []))) r h.1 (omega arith))
      (omega arith) (omega (arith, sum16_shift a r)))
sum_region-Sums (suc (suc (suc (suc n)))) bs o h fit = absurd (omega arith)

-- The accumulator after the carries and the swap of an odd address.
finish : ℕ → ℕ → ℕ
finish offset total = if offset % 2 == 1 then swap_bytes (fold64 total) else fold64 total

finish_lem :
    (offset s total : ℕ)
    → offset < 4
    → Sums 0xffff (weight offset * s) total
    → finish offset total ≡ ones_sum s
unfolding finish
finish_lem zero s total o p = omega (arith, fold64_lem total)
finish_lem (suc zero) s total o p =
    rw (fold64_lem total (omega arith) p.fits, swap_bytes-ones_sum) (omega arith)
finish_lem (suc (suc zero)) s total o p = omega (arith, fold64_lem total)
finish_lem (suc (suc (suc zero))) s total o p =
    rw (fold64_lem total (omega arith) p.fits, swap_bytes-ones_sum) (omega arith)
finish_lem (suc (suc (suc (suc n)))) s total o p = absurd (omega arith)

complement16 : (s : ℕ) → (2 ^ 64 - 1 - ones_sum s) % 65536 ≡ 65535 - ones_sum s
complement16 s = omega arith

-- For data that lies at any address, of less than 65536 bytes, ip_checksum returns the bytes, in
-- network order, of the complement of the ones' complement sum of the data's big-endian 16-bit
-- words (where the sum of zeros counts as 0xffff).
pub ip_checksum_rfc1071 :
    (addr : ℕ) (bs : List ℕ)
    → AllBytes bs
    → length bs < 65536
    → ip_checksum addr bs ≡ htons (65535 - ones_sum (sum16 bs))
unfolding ip_checksum finish
ip_checksum_rfc1071 addr bs h fit = ap htons (
    ap (λ (v : ℕ). (2 ^ 64 - 1 - v) % 65536)
      (finish_lem (addr % 4) (sum16 bs) (sum_region (addr % 4) bs) (omega arith)
        (sum_region-Sums (addr % 4) bs (omega arith) h fit))
    ∙ complement16 (sum16 bs))

pub sum16-append :
    (k : ℕ) (pre bs : List ℕ) → length pre ≡ 2 * k → sum16 (pre ++ bs) ≡ sum16 pre + sum16 bs
unfolding sum16
sum16-append k [] bs e = omega arith
sum16-append k (a ∷ []) bs e = absurd (omega arith)
sum16-append k (a ∷ b ∷ r) bs e = omega (arith, sum16-append (k - 1) r bs)

sum16-insert :
    (k v : ℕ) (pre post : List ℕ)
    → length pre ≡ 2 * k
    → sum16 (pre ++ (bytes16 v ++ post)) ≡ sum16 (pre ++ 0 ∷ 0 ∷ post) + htons v
unfolding sum16
sum16-insert k v pre post e =
    omega (arith, sum16-append k pre (bytes16 v ++ post) e, sum16-append k pre (0 ∷ 0 ∷ post) e)

-- The sum with its own complement is the ones' complement zero.
add_complement : (s : ℕ) → htons (65535 - ones_sum (s + htons (htons (65535 - ones_sum s)))) ≡ 0
add_complement s =
    let e : htons (htons (65535 - ones_sum s)) ≡ 65535 - ones_sum s =
      htons-htons (65535 - ones_sum s) (omega arith) in
    rw e (omega arith)

-- Storing what ip_checksum computes over a region whose checksum field is 0 into that field, as the
-- little-endian host does, makes ip_checksum of the region 0, at any address; the field starts at
-- an even offset of the region, and the region holds less than 65536 bytes.
pub ip_checksum_verifies :
    (addr addr' k : ℕ) (pre post : List ℕ)
    → length pre ≡ 2 * k
    → AllBytes (pre ++ post)
    → length pre + length post < 65534
    → ip_checksum addr' (pre ++ (bytes16 (ip_checksum addr (pre ++ 0 ∷ 0 ∷ post)) ++ post)) ≡ 0
ip_checksum_verifies addr addr' k pre post e h fit =
    rw
      (
        ip_checksum_rfc1071 addr (pre ++ 0 ∷ 0 ∷ post)
            (AllBytes-insert pre post (0 ∷ 0 ∷ []) h (omega arith))
            (omega (arith, length-append pre (0 ∷ 0 ∷ post))),
        ip_checksum_rfc1071 addr' (pre ++ (bytes16 v ++ post))
            (AllBytes-insert pre post (bytes16 v) h (omega arith))
            (omega (arith, length-append pre (bytes16 v ++ post))),
        sum16-insert k v pre post e,
      )
      (add_complement (sum16 (pre ++ 0 ∷ 0 ∷ post)))
  where
    v : ℕ
    v = htons (65535 - ones_sum (sum16 (pre ++ 0 ∷ 0 ∷ post)))

-- A region passes the check exactly if the sum of its words is 0 modulo 65535.
pub ip_checksum_accepts :
    (addr : ℕ) (bs : List ℕ)
    → AllBytes bs
    → length bs < 65536
    → (ip_checksum addr bs ≡ 0) ↔ (sum16 bs % 65535 ≡ 0)
ip_checksum_accepts addr bs h fit =
    rw (ip_checksum_rfc1071 addr bs h fit) (λ e. omega arith, λ e. omega arith)
