-- ===== src/Web/Transport/Whole.antt =====
-- receive_from_server of Tema_3/helpers.c on an answer with a length: it returns once it has all of it,
-- however the network cuts it.
use communication_protocols.Base.{
  ℕ, ◌+◌, ◌%◌, ◌^◌, ◌≤◌, ◌<◌, ◌≡◌, refl, sym, ap, ◌∙◌, true, false, inl, inr, List, [], ◌∷◌, ◌++◌,
  append_assoc, append-nil, arith, ltb, ◌==◌, map, length, length-append,
}
use communication_protocols.Web.Buffer.{Buffer, buffer_init}
use communication_protocols.Web.Buffer.Contents.{Contents, buffer_add-Contents}
use communication_protocols.Web.Transport.{
  Read, got, read_failed, header, returned, header_loop, body_loop, receive_from_server, minus_one,
}
use communication_protocols.Web.Transport.Answers.{together}
use communication_protocols.Web.Transport.Receiving.{finish-Contents}
use communication_protocols.Web.Transport.Head.{IsHttp, examine-Found}

-- No read is empty.
abbrev pub NonEmpty : List (List ℕ) → Type 0
NonEmpty [] = Unit {0}
NonEmpty (p ∷ ps) = (0 < length p) × NonEmpty ps

pub not_zero : (n : ℕ) → 0 < n → (n == 0) ≡ false
not_zero n h = ground arith

pub no_more :
    (b : Buffer) (bs : List ℕ) (total : ℕ)
    → Contents b bs
    → total ≤ length bs
    → ltb b.size total ≡ false
no_more b bs total c full = let size : b.size ≡ length bs = c.size in ground arith

module _ (head body : List ℕ) (http : IsHttp head body) where
  module _ (junk : ℕ) (rest : List Read) where
    -- The loop over the header comes to its end with the whole head, and perhaps more, in the buffer.
    header_loop-ends :
        (pieces : List (List ℕ)) (b : Buffer) (bs : List ℕ) (e : ℕ)
        → Contents b bs
        → NonEmpty pieces
        → bs ++ together pieces ≡ head ++ body
        → length bs < length head
        → (b' : Buffer) × (bs' : List ℕ) × (later : List (List ℕ)) × (header_loop junk b e
              (map got pieces ++ rest)
            ≡ header b' (length head) (length body) (map got later ++ rest))
          × Contents b' bs'
          × NonEmpty later
          × (bs' ++ together later ≡ head ++ body)
    unfolding header_loop
    header_loop-ends [] b bs e c some_bytes same short =
        let all : length bs ≡ length (head ++ body) = ap length (sym (append-nil bs) ∙ same) in
        absurd (omega (arith, length-append head body))
    header_loop-ends (p ∷ pieces) b bs e c (pos, later_bytes) same short =
        let (b', added, held) = buffer_add-Contents junk b bs p c in
        let same' : (bs ++ p) ++ together pieces ≡ head ++ body =
          append_assoc bs p (together pieces) ∙ same in
        elim (examine-Found head body http b' (bs ++ p) (together pieces) held same') [
          | inl (enough, found) ↦ (
            b',
            bs ++ p,
            pieces,
            rw (not_zero (length p) pos, added, found, header_loop) refl,
            held,
            later_bytes,
            same',
          )
          | inr (short', found) ↦
              let (b'', bs'', later, ends, held', more, same'') =
                header_loop-ends pieces b' (bs ++ p) minus_one held later_bytes same' short' in
              (
                b'',
                bs'',
                later,
                rw (not_zero (length p) pos, added, found, header_loop) ends,
                held',
                more,
                same'',
              )
        ]

    body_loop-full :
        (b : Buffer) (bs : List ℕ) (total : ℕ) (rs : List Read)
        → Contents b bs
        → total ≤ length bs
        → body_loop junk b total rs ≡ returned (bs ++ (0 ∷ [])) rs
    unfolding body_loop
    body_loop-full b bs total [] c full =
        rw (no_more b bs total c full, body_loop) (finish-Contents junk b bs [] c)
    body_loop-full b bs total (read_failed ∷ rs) c full =
        rw (no_more b bs total c full, body_loop) (finish-Contents junk b bs (read_failed ∷ rs) c)
    body_loop-full b bs total (got p ∷ rs) c full =
        rw (no_more b bs total c full, body_loop) (finish-Contents junk b bs (got p ∷ rs) c)

    body_loop-ends :
        (pieces : List (List ℕ)) (b : Buffer) (bs : List ℕ) (total : ℕ)
        → Contents b bs
        → NonEmpty pieces
        → bs ++ together pieces ≡ head ++ body
        → total ≡ length (head ++ body)
        → body_loop junk b total (map got pieces ++ rest)
          ≡ returned ((head ++ body) ++ (0 ∷ [])) rest
    unfolding body_loop
    body_loop-ends [] b bs total c some_bytes same t =
        let whole : bs ≡ head ++ body = sym (append-nil bs) ∙ same in
        let full : total ≤ length bs = rw (t, whole) (omega arith) in
        rw (← whole) (body_loop-full b bs total rest c full)
    body_loop-ends (p ∷ pieces) b bs total c (pos, later_bytes) same t =
        let (b', added, held) = buffer_add-Contents junk b bs p c in
        let same' : (bs ++ p) ++ together pieces ≡ head ++ body =
          append_assoc bs p (together pieces) ∙ same in
        let long : length ((bs ++ p) ++ together pieces) ≡ total = ap length same' ∙ sym t in
        let short : length bs < total =
          omega (arith, length-append (bs ++ p) (together pieces), length-append bs p) in
        let more : ltb b.size total ≡ true =
          let size : b.size ≡ length bs = c.size in ground arith in
        rw (more, not_zero (length p) pos, added, body_loop)
          (body_loop-ends pieces b' (bs ++ p) total held later_bytes same' t)

    -- An HTTP answer with a length, which comes in reads of any size that are not empty: the string that is
    -- returned is the whole answer and a zero, and no read behind it is used.
    pub receive_from_server_whole :
        (pieces : List (List ℕ))
        → NonEmpty pieces
        → together pieces ≡ head ++ body
        → receive_from_server junk (map got pieces ++ rest)
          ≡ returned ((head ++ body) ++ (0 ∷ [])) rest
    unfolding receive_from_server buffer_init
    receive_from_server_whole pieces some_bytes same =
        let (b, bs, later, ends, held, more, same') =
          header_loop-ends pieces buffer_init [] 0
            (record { block = inr (refl, refl); size = refl }) some_bytes same
            (let last : http.end + 4 ≡ length head = http.last in omega arith) in
        let total : (length body + length head) % 2 ^ 64 ≡ length (head ++ body) =
          let fits : length head + length body < 2 ^ 64 = http.fits in
          omega (arith, length-append head body) in
        rw (ends, receive_from_server)
          (body_loop-ends later b bs ((length body + length head) % 2 ^ 64) held more same' total)
