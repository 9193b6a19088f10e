-- ===== src/Broker/Subscriber/Decode.antt =====
-- The text that decode of Tema_2/subscriber.cpp gives for an integer denotes it.
use communication_protocols.Base.{
  ℕ, ◌+◌, ◌-◌, ◌*◌, ◌/◌, ◌%◌, ◌≤◌, ◌<◌, ◌≡◌, refl, sym, ap, ◌∙◌, Bool, true, false, Bool-cases, inl,
  inr, some, List, [], ◌∷◌, ◌++◌, arith, ◌==◌, if◌then◌else◌, Acc, dif_pos, dif_neg, le_prop,
  dec_lt, lt_wf,
}
use communication_protocols.CString.{decimal, decimal_acc}
use communication_protocols.Broker.Subscriber.{
  FloatText, byte_at, long_at, type_at, data_at, decode,
}

-- The number that decimal digits denote, behind those that were read.
abbrev pub value_from : ℕ → List ℕ → ℕ
value_from acc [] = acc
value_from acc (c ∷ s) = value_from (acc * 10 + (c - b'0')) s

-- A minus sign, and the number.
abbrev pub reading : List ℕ → Bool × ℕ
reading [] = (false, 0)
reading (c ∷ s) = if c == b'-' then (true, value_from 0 s) else (false, value_from 0 (c ∷ s))

value_from-snoc :
    (acc c : ℕ) (s : List ℕ) → value_from acc (s ++ (c ∷ [])) ≡ value_from acc s * 10 + (c - b'0')
value_from-snoc acc c [] = refl
value_from-snoc acc c (d ∷ s) = value_from-snoc (acc * 10 + (d - b'0')) c s

-- The digits of a number: they denote it, and the first is none of the signs.
record Denotes (n : ℕ) (s : List ℕ) : Type 0 where
  value : value_from 0 s ≡ n
  head : ℕ
  tail : List ℕ
  form : s ≡ head ∷ tail
  digit : b'0' ≤ head

Denotes-snoc : (n : ℕ) (s : List ℕ) → Denotes (n / 10) s → Denotes n (s ++ ((b'0' + n % 10) ∷ []))
Denotes-snoc n s d = record {
  value = value_from-snoc 0 (b'0' + n % 10) s ∙ omega (arith, d.value);
  head = d.head;
  tail = d.tail ++ ((b'0' + n % 10) ∷ []);
  form = ap (λ (l : List ℕ). l ++ ((b'0' + n % 10) ∷ [])) d.form;
  digit = d.digit;
}

decimal_acc-Denotes : (n : ℕ) (w : Acc ◌<◌ n) → Denotes n (decimal_acc n w)
unfolding decimal_acc
decimal_acc-Denotes n (Acc.intro _ smaller) = elim (dec_lt n 10) [
  | yes p ↦
      rw (dif_pos (dec_lt n 10) le_prop p) (record {
        value = omega arith;
        head = b'0' + n;
        tail = [];
        form = refl;
        digit = omega arith;
      })
  | no p ↦
      rw (dif_neg (dec_lt n 10) p)
        (Denotes-snoc n _ (decimal_acc-Denotes (n / 10) (smaller (n / 10) (omega arith))))
]

decimal-Denotes : (n : ℕ) → Denotes n (decimal n)
unfolding decimal
decimal-Denotes n = decimal_acc-Denotes n (lt_wf.apply n)

reading-digits : (n : ℕ) (s : List ℕ) → Denotes n s → reading s ≡ (false, n)
reading-digits n s d =
    let plain : (d.head == b'-') ≡ false = let h : b'0' ≤ d.head = d.digit in ground arith in
    let v : value_from 0 (d.head ∷ d.tail) ≡ n = ap (value_from 0) (sym d.form) ∙ d.value in
    rw (d.form, reading, plain) (ap (λ k. (false, k)) v)

-- For a message of type INT decode gives a text that denotes the number in network order behind the
-- sign byte, with a minus sign exactly if the sign byte is 1.
pub decode-integer :
    (floats : FloatText) (udp : List ℕ)
    → byte_at udp type_at ≡ 0
    → (text : List ℕ) × (decode floats udp ≡ some text)
      × (reading text ≡ (byte_at udp data_at == 1, long_at udp (data_at + 1)))
unfolding decode
decode-integer floats udp e = elim (Bool-cases (byte_at udp data_at == 1)) [
  | inl s ↦ (
    b'-' ∷ decimal (long_at udp (data_at + 1)),
    rw (e, s),
    rw s (ap (λ k. (true, k)) (decimal-Denotes (long_at udp (data_at + 1))).value),
  )
  | inr s ↦ (
    decimal (long_at udp (data_at + 1)),
    rw (e, s),
    rw s (reading-digits _ _ (decimal-Denotes (long_at udp (data_at + 1)))),
  )
]
