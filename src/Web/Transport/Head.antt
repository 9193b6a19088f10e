-- ===== src/Web/Transport/Head.antt =====
-- What receive_from_server of Tema_3/helpers.c finds in the first bytes of an answer with a length.
use communication_protocols.Base.{
  ℕ, ◌+◌, ◌^◌, ◌≤◌, ◌<◌, ◌≡◌, ◌⊎◌, refl, ◌∙◌, inl, inr, dec_lt, Option, none, some, List, [], ◌∷◌,
  ◌++◌, arith, ◌==◌, length, drop,
}
use communication_protocols.Web.Buffer.{Buffer, tolower, buffer_find}
use communication_protocols.Web.Buffer.Find.{
  IsFirst, buffer_find-IsFirst, buffer_find_insensitive-IsFirst,
}
use communication_protocols.Web.Buffer.Contents.{Contents}
use communication_protocols.Web.Transport.{
  complete, partial, examine, block_of, header_terminator, content_length, strtol, minus_one,
}
use communication_protocols.Web.Transport.Receiving.{block_of-Contents}
use communication_protocols.Web.Transport.Places.{
  drop-append, found_same, found_late, strtol-append,
}

-- An answer of an HTTP server: `head` ends in the first empty line, the first Content-Length stands in
-- it, and its number is the length of the body.
pub record IsHttp (head body : List ℕ) : Type 0 where
  pub end : ℕ
  pub ends : IsFirst (λ a c. a == c) head header_terminator (some end)
  pub last : end + 4 ≡ length head
  pub place : ℕ
  pub named : IsFirst (λ a c. tolower a == tolower c) head content_length (some place)
  pub counts : strtol (drop (place + 16) head) ≡ some (length body)
  pub fits : length head + length body < 2 ^ 64

module _ (head body : List ℕ) (http : IsHttp head body) where
  -- The bytes that are there begin with the head.
  prefix :
      (bs more : List ℕ)
      → bs ++ more ≡ head ++ body
      → length head ≤ length bs
      → (tail : List ℕ) × (bs ≡ head ++ tail)
  prefix bs more same enough = split head bs body same enough
    where
      split :
          (xs ys zs : List ℕ)
          → ys ++ more ≡ xs ++ zs
          → length xs ≤ length ys
          → (tail : List ℕ) × (ys ≡ xs ++ tail)
      split [] ys zs e h = (ys, refl)
      split (x ∷ xs) [] zs e h = absurd (omega arith)
      split (x ∷ xs) (y ∷ ys) zs e h =
          let tails : ys ++ more ≡ xs ++ zs = cc in
          let heads : y ≡ x = cc in
          let (tail, f) = split xs ys zs tails (omega arith) in (tail, cc (heads, f))

  -- What a look into the buffer finds: no end before the head is there, and then the head and the length.
  pub examine-Found :
      (b : Buffer) (bs more : List ℕ)
      → Contents b bs
      → bs ++ more ≡ head ++ body
      → ((length head ≤ length bs) × (examine b ≡ complete (length head) (length body)))
        ⊎ ((length bs < length head) × (examine b ≡ partial minus_one))
  unfolding examine
  examine-Found b bs more c same =
      let (end, e, first) = buffer_find-IsFirst b bs header_terminator c in
      let (place, f, named) = buffer_find_insensitive-IsFirst b bs content_length c in
      elim (dec_lt (length bs) (length head)) [
        | yes short ↦ inr (short, no_end end e first short)
        | no ge ↦
            let enough : length head ≤ length bs = omega arith in
            let end_is : end ≡ some http.end =
              found_same (λ a c. a == c) head body bs more header_terminator http.end http.ends same
                end first enough in
            let place_is : place ≡ some http.place =
              found_same (λ a c. tolower a == tolower c) head body bs more content_length http.place
                http.named same place named enough in
            let length_is : strtol (drop (http.place + 16) (block_of b)) ≡ some (length body) =
              length_read enough in
            inl (enough, rw (e, end_is, f, place_is, length_is, http.last, examine) refl)
      ]
    where
      no_end :
          (end : Option ℕ)
          → buffer_find b header_terminator ≡ some end
          → IsFirst (λ a c. a == c) bs header_terminator end
          → length bs < length head
          → examine b ≡ partial minus_one
      no_end none e first short = rw (e, examine) refl
      no_end (some j) e first short =
          let enough : length head ≤ length bs =
            found_late (λ a c. a == c) head body bs more header_terminator http.end http.ends same j
              first http.last in
          absurd (omega arith)

      length_read :
          length head ≤ length bs
          → strtol (drop (http.place + 16) (block_of b)) ≡ some (length body)
      length_read enough =
          let (tail, form) = prefix bs more same enough in
          let (_, inside, _) = http.named in
          let all : block_of b ≡ head ++ tail = block_of-Contents b bs c ∙ form in
          let cut : drop (http.place + 16) (head ++ tail) ≡ drop (http.place + 16) head ++ tail =
            drop-append (http.place + 16) head tail inside in
          rw (all, cut) (strtol-append (drop (http.place + 16) head) tail (length body) http.counts)
