-- ===== src/Web/Transport/Sending.antt =====
-- send_to_server of Tema_3/helpers.c sends the whole message.
use communication_protocols.Base.{
  ℕ, zero, suc, ◌+◌, ◌-◌, ◌≤◌, ◌<◌, ◌≡◌, refl, sym, ap, ◌∙◌, Bool-cases, inl, inr, List, [], ◌∷◌,
  ◌++◌, arith, ltb, ◌==◌, length, take, drop, take-append-drop, append_assoc, length-drop,
}
use communication_protocols.Web.Transport.{
  Write, wrote, write_failed, Status, finished, send_loop, send_to_server,
}

-- The writes take at most what is left, and at least one byte as long as anything is left.
abbrev pub Accepts : (left : ℕ) → List Write → Type 0
Accepts left [] = Unit {0}
Accepts left (write_failed ∷ ws) = ⊥
Accepts left (wrote n ∷ ws) = (n ≤ left) × (0 < left → 0 < n) × Accepts (left - n) ws

drop-add : (n m : ℕ) (xs : List ℕ) → drop n (drop m xs) ≡ drop (m + n) xs
drop-add n zero xs = let z : 0 + n ≡ n = omega arith in rw z
drop-add zero (suc m) [] = let z : suc m + 0 ≡ suc m = omega arith in rw z
drop-add (suc n) (suc m) [] = let z : suc m + suc n ≡ suc (m + suc n) = omega arith in rw z
drop-add n (suc m) (x ∷ xs) =
    let z : suc m + n ≡ suc (m + n) = omega arith in rw z (drop-add n m xs)

drop-all : (n : ℕ) (xs : List ℕ) → length xs ≤ n → drop n xs ≡ []
drop-all zero [] h = refl
drop-all zero (x ∷ xs) h = absurd (omega arith)
drop-all (suc n) [] h = refl
drop-all (suc n) (x ∷ xs) h = drop-all n xs (omega arith)

take-all : (n : ℕ) (xs : List ℕ) → length xs ≤ n → take n xs ≡ xs
take-all zero [] h = refl
take-all zero (x ∷ xs) h = absurd (omega arith)
take-all (suc n) [] h = refl
take-all (suc n) (x ∷ xs) h = ap (λ l. x ∷ l) (take-all n xs (omega arith))

unfoldable with_status : List ℕ → List ℕ × Status
with_status l = (l, finished)

send_loop-whole :
    (message : List ℕ) (sent : ℕ) (ws : List Write)
    → Accepts (length message - sent) ws
    → length message - sent < length ws
    → sent ≤ length message
    → send_loop message sent ws ≡ (drop sent message, finished)
unfolding send_loop with_status
send_loop-whole message sent [] h enough le = absurd (omega arith)
send_loop-whole message sent (write_failed ∷ ws) h enough le = absurd h
send_loop-whole message sent (wrote n ∷ ws) (fits, some_byte, more) enough le =
    elim (Bool-cases (n == 0)) [
      | inl e ↦
          let z : n ≡ 0 = ground arith in
          let all : length message ≤ sent = ground arith in rw (e, drop-all sent message all)
      | inr e ↦
          let pos : 0 < n = ground arith in
          elim (Bool-cases (ltb (sent + n) (length message))) [
            | inl f ↦
                let left : length message - sent - n ≡ length message - (sent + n) = omega arith in
                let room : sent + n ≤ length message = ground arith in
                let ih : send_loop message (sent + n) ws ≡ (drop (sent + n) message, finished) =
                  send_loop-whole message (sent + n) ws (rw left at more) (omega arith) room in
                rw (e, f, ih)
                  (ap (λ (l : List ℕ). with_status l)
                    (ap (λ (l : List ℕ). take n (drop sent message) ++ l)
                        (sym (drop-add n sent message))
                      ∙ take-append-drop n (drop sent message)))
            | inr f ↦
                let all : length (drop sent message) ≤ n =
                  let g : length message ≤ sent + n = ground arith in
                  omega (arith, g, length-drop sent message) in
                rw (e, f, take-all n (drop sent message) all)
          ]
    ]

-- If the system takes at most what it is given and at least one byte of what is left, and answers one
-- write more than the message has bytes, then send_to_server ends and the writes took the message,
-- whole and in order, however it was cut.
pub send_to_server_whole :
    (message : List ℕ) (ws : List Write)
    → Accepts (length message) ws
    → length message < length ws
    → send_to_server message ws ≡ (message, finished)
unfolding send_to_server
send_to_server_whole message ws h enough =
    let z : length message - 0 ≡ length message = omega arith in
    send_loop-whole message 0 ws (rw z h) (omega arith) (omega arith)

abbrev pub IsPrefix : (sent whole : List ℕ) → Type 0
IsPrefix sent whole = (rest : List ℕ) × (whole ≡ sent ++ rest)

send_loop-IsPrefix :
    (message : List ℕ) (sent : ℕ) (ws : List Write)
    → IsPrefix (send_loop message sent ws).0 (drop sent message)
unfolding send_loop
send_loop-IsPrefix message sent [] = (drop sent message, refl)
send_loop-IsPrefix message sent (write_failed ∷ ws) = (drop sent message, refl)
send_loop-IsPrefix message sent (wrote n ∷ ws) =
    let taken : List ℕ = take n (drop sent message) in
    let (rest, e) = send_loop-IsPrefix message (sent + n) ws in
    let split : drop sent message ≡ taken ++ drop n (drop sent message) =
      sym (take-append-drop n (drop sent message)) in
    elim (Bool-cases (n == 0)) [
      | inl z ↦ rw (z, send_loop) (drop sent message, refl)
      | inr some_bytes ↦ elim (Bool-cases (ltb (sent + n) (length message))) [
        | inl more ↦
            rw (some_bytes, more, send_loop)
              (
                rest,
                split
                    ∙ ap (λ (l : List ℕ). taken ++ l) (drop-add n sent message ∙ e)
                    ∙ sym (append_assoc taken (send_loop message (sent + n) ws).0 rest),
              )
        | inr whole ↦ rw (some_bytes, whole, send_loop) (drop n (drop sent message), split)
      ]
    ]

-- What the writes of send_to_server take is a prefix of the message, whatever the system answers.
pub send_to_server-IsPrefix :
    (message : List ℕ) (ws : List Write) → IsPrefix (send_to_server message ws).0 message
unfolding send_to_server
send_to_server-IsPrefix message ws = send_loop-IsPrefix message 0 ws
