-- ===== src/Web/Transport/Receiving.antt =====
-- receive_from_server of Tema_3/helpers.c loses and repeats no byte, and when it does not
-- return.
use communication_protocols.Base.{
  false, ℕ, ◌+◌, ◌%◌, ◌^◌, ◌≡◌, refl, sym, subst, ap, inl, inr, true, Bool-cases, List, [], ◌∷◌,
  ◌++◌, append-nil, arith, ltb, ◌==◌, length, none, some, drop, Option-cases, Option,
}
use communication_protocols.Web.Buffer.{
  Buffer, tolower, buffer_find, buffer_find_insensitive, buffer_init,
}
use communication_protocols.Web.Buffer.Find.{
  IsFirst, buffer_find-IsFirst, buffer_find_insensitive-IsFirst,
}
use communication_protocols.Web.Buffer.Contents.{Contents, buffer_add-Contents}
use communication_protocols.Web.Transport.{
  Read, got, Header, read_failed, header, header_waits, header_exits, header_faults, complete,
  partial, broken, examine, header_loop, returned, waits, exits, faults, block_of, finish,
  body_loop, receive_from_server, header_terminator, content_length, strtol,
}
use communication_protocols.Web.Transport.Answers.{
  empties, Used, IsCut, Explains, HeaderExplains, use_none, use_one, explain_one, header_one,
  explain_rest,
}

nothing : (new : List ℕ) → (length new == 0) ≡ true → new ≡ []
nothing [] e = refl
nothing (c ∷ new) e = absurd (ground arith)

use_empty : (bs new : List ℕ) (rs : List Read) → new ≡ [] → Used 1 bs (got new ∷ rs) bs rs
use_empty bs new rs e = ([] ∷ [], rw e, sym (append-nil bs), omega arith)

some_bytes : (new : List ℕ) → (length new == 0) ≡ false → empties (new ∷ []) ≡ 0
some_bytes new e = rw e

pub block_of-Contents : (b : Buffer) (bs : List ℕ) → Contents b bs → block_of b ≡ bs
block_of-Contents b bs held = elim held.block [
  | inl e ↦ rw e
  | inr (e, none_left) ↦ rw (e, none_left)
]

examine-broken : (b : Buffer) (bs : List ℕ) → Contents b bs → examine b ≡ broken → IsCut bs
unfolding examine
examine-broken b bs c h =
    let (end, e, _) = buffer_find-IsFirst b bs header_terminator c in
    let (place, f, first) = buffer_find_insensitive-IsFirst b bs content_length c in
    go end place e f first
  where
    go :
        (end place : Option ℕ)
        → buffer_find b header_terminator ≡ some end
        → buffer_find_insensitive b content_length ≡ some place
        → IsFirst (λ a c. tolower a == tolower c) bs content_length place
        → IsCut bs
    go none place e f first = absurd (cc (rw (examine, e) at h))
    go (some i) none e f first = absurd (cc (rw (examine, e, f) at h))
    go (some i) (some k) e f first = elim (Option-cases (strtol (drop (k + 16) (block_of b)))) [
      | inl g ↦ (
        k,
        first.0,
        subst (λ (l : List ℕ). strtol (drop (k + 16) l) ≡ none) (block_of-Contents b bs c) g,
      )
      | inr (n, g) ↦ absurd (cc (rw (examine, e, f, g) at h))
    ]

module _ (junk : ℕ) where
  pub finish-Contents :
      (b : Buffer) (bs : List ℕ) (rs : List Read)
      → Contents b bs
      → finish junk b rs ≡ returned (bs ++ (0 ∷ [])) rs
  unfolding finish
  finish-Contents b bs rs c =
      let (b', added, held) = buffer_add-Contents junk b bs (0 ∷ []) c in
      rw (finish, added, block_of-Contents b' (bs ++ (0 ∷ [])) held)

  finish-Explains :
      (b : Buffer) (bs : List ℕ) (rs all : List Read)
      → Contents b bs
      → Used 1 bs all bs rs
      → Explains 0 bs all (finish junk b rs)
  finish-Explains b bs rs all c u = rw (finish-Contents b bs rs c) (bs, u, refl)

  body_loop-Explains :
      (b : Buffer) (bs : List ℕ) (total : ℕ) (rs : List Read)
      → Contents b bs
      → Explains 0 bs rs (body_loop junk b total rs)
  unfolding body_loop
  body_loop-Explains b bs total [] c = elim (Bool-cases (ltb b.size total)) [
    | inl e ↦ rw e ([], refl, omega arith)
    | inr e ↦ rw e (finish-Explains b bs [] [] c (use_none 1 bs []))
  ]
  body_loop-Explains b bs total (read_failed ∷ rs) c = elim (Bool-cases (ltb b.size total)) [
    | inl e ↦ rw e ([], rs, refl)
    | inr e ↦
        let all = read_failed ∷ rs in rw e (finish-Explains b bs all all c (use_none 1 bs all))
  ]
  body_loop-Explains b bs total (got new ∷ rs) c = elim (Bool-cases (ltb b.size total)) [
    | inr e ↦
        let all = got new ∷ rs in
        rw (Explains, body_loop, e) (finish-Explains b bs all all c (use_none 1 bs all))
    | inl e ↦ elim (Bool-cases (length new == 0)) [
      | inl f ↦
          rw (Explains, body_loop, e, f)
            (finish-Explains b bs rs (got new ∷ rs) c (use_empty bs new rs (nothing new f)))
      | inr f ↦
          let (b', added, held) = buffer_add-Contents junk b bs new c in
          rw (Explains, body_loop, e, f, added)
            (explain_one bs new rs 0 0 (body_loop junk b' total rs)
              (omega (arith, some_bytes new f)) (body_loop-Explains b' (bs ++ new) total rs held))
    ]
  ]

  header_loop-Explains :
      (b : Buffer) (bs : List ℕ) (e : ℕ) (rs : List Read)
      → Contents b bs
      → HeaderExplains bs rs (header_loop junk b e rs)
  unfolding header_loop
  header_loop-Explains b bs e [] c = ([], refl, omega arith)
  header_loop-Explains b bs e (read_failed ∷ rs) c = ([], rs, refl)
  header_loop-Explains b bs e (got new ∷ rs) c = elim (Bool-cases (length new == 0)) [
    | inl f ↦ rw (HeaderExplains, header_loop, f) (bs, use_empty bs new rs (nothing new f), c)
    | inr f ↦
        let (b', added, held) = buffer_add-Contents junk b bs new c in
        rw (HeaderExplains, header_loop, f, added)
          (elim (examine b')
              as (λ x.
                examine b' ≡ x
                → HeaderExplains bs (got new ∷ rs) (elim x [
                  | broken ↦ header_faults
                  | partial e ↦ header_loop junk b' e rs
                  | complete e n ↦ header b' e n rs
                ])) [
                  | broken ↦ λ g. (
                    new ∷ [],
                    rs,
                    refl,
                    subst IsCut (ap (λ (l : List ℕ). bs ++ l) (sym (append-nil new)))
                        (examine-broken b' (bs ++ new) held g),
                  )
                  | partial e' ↦ λ g.
                      header_one bs new rs (header_loop junk b' e' rs) (some_bytes new f)
                        (header_loop-Explains b' (bs ++ new) e' rs held)
                  | complete e' n ↦ λ g. (
                    bs ++ new,
                    use_one bs new rs 1 1 (omega (arith, some_bytes new f)) (bs ++ new) rs
                        (use_none 1 (bs ++ new) rs),
                    held,
                  )
                ]
            refl)
  ]

  received :
      (rs : List Read) (a : Header)
      → HeaderExplains [] rs a
      → Explains 1 [] rs (elim a [
        | header b e n rest ↦ body_loop junk b ((n + e) % 2 ^ 64) rest
        | header_waits ↦ waits
        | header_exits ↦ exits
        | header_faults ↦ faults
      ])
  received rs (header b e n rest) (out, u, c) =
      explain_rest rs rest out (body_loop junk b ((n + e) % 2 ^ 64) rest) u
        (body_loop-Explains b out ((n + e) % 2 ^ 64) rest c)
  received rs header_waits (used, split, few) = (used, split, omega arith)
  received rs header_exits h = h
  received rs header_faults h = h

  -- Whatever realloc leaves in the bytes it adds: a string that receive_from_server returns is the
  -- bytes of the reads that it used, none lost or repeated, and a zero; the other reads are left. It
  -- waits only if every read succeeded and at most one was empty, the program exits only at a read that
  -- fails, and it reads past the block only if that ends before the digits of the length do.
  pub receive_from_server-Explains :
      (rs : List Read) → Explains 1 [] rs (receive_from_server junk rs)
  unfolding receive_from_server buffer_init
  receive_from_server-Explains rs =
      received rs (header_loop junk buffer_init 0 rs) (
        header_loop-Explains buffer_init [] 0 rs (record { block = inr (refl, refl); size = refl }))
