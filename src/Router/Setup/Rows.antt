-- ===== src/Router/Setup/Rows.antt =====
-- The text of a routing table, as parsing_rtable of Tema_1/router.c reads it, and the digits of its
-- numbers.
use communication_protocols.Base.{
  ℕ, ◌+◌, ◌-◌, ◌*◌, ◌/◌, ◌%◌, ◌^◌, ◌≤◌, ◌<◌, ◌≡◌, refl, ap, ◌∙◌, true, false, List, [], ◌∷◌, ◌++◌,
  arith, ◌==◌, length, Acc, dif_pos, dif_neg, le_prop, dec_lt, lt_wf,
}
use communication_protocols.CString.{NoZero, is_space, decimal, decimal_acc, is_digit, scan_digits}

-- A line of the file: three words and a number.
pub record Row : Type 0 where
  pub prefix : List ℕ
  pub next_hop : List ℕ
  pub mask : List ℕ
  pub interface : ℕ

abbrev pub Plain : List ℕ → Type 0
Plain [] = Unit {0}
Plain (c ∷ s) = (is_space c ≡ false) × ((c == 0) ≡ false) × Plain s

abbrev pub IsText : List ℕ → Type 0
IsText [] = ⊥
IsText (c ∷ s) = Plain (c ∷ s)

abbrev pub row_body : Row → List ℕ
row_body r = r.prefix ++ (32 ∷ (r.next_hop ++ (32 ∷ (r.mask ++ (32 ∷ decimal r.interface)))))

abbrev pub table_text : List Row → List ℕ
table_text [] = []
table_text (r ∷ rs) = row_body r ++ (b'\n' ∷ table_text rs)

-- The words have neither white space nor zeros and fit into 25 bytes, the line into 50, and the number
-- is one of an int.
pub record IsRow (r : Row) : Type 0 where
  pub prefix : IsText r.prefix
  pub next_hop : IsText r.next_hop
  pub mask : IsText r.mask
  pub prefix_fits : length r.prefix < 25
  pub next_hop_fits : length r.next_hop < 25
  pub mask_fits : length r.mask < 25
  pub interface : r.interface < 2 ^ 31
  pub fits : length (row_body r) ≤ 48

abbrev pub Rows : List Row → Type 0
Rows [] = Unit {0}
Rows (r ∷ rs) = IsRow r × Rows rs

-- Characters that stay in one line and in one string.
abbrev pub OneLine : List ℕ → Type 0
OneLine [] = Unit {0}
OneLine (c ∷ s) = ((c == b'\n') ≡ false) × ((c == 0) ≡ false) × OneLine s

pub OneLine-append : (s t : List ℕ) → OneLine s → OneLine t → OneLine (s ++ t)
OneLine-append [] t h k = k
OneLine-append (c ∷ s) t (h, g, more) k = (h, g, OneLine-append s t more k)

Plain-OneLine : (s : List ℕ) → Plain s → OneLine s
Plain-OneLine [] h = tt
Plain-OneLine (c ∷ s) (h, g, more) = (ground arith, g, Plain-OneLine s more)

pub IsText-OneLine : (s : List ℕ) → IsText s → OneLine s
IsText-OneLine [] h = absurd h
IsText-OneLine (c ∷ s) h = Plain-OneLine (c ∷ s) h

pub OneLine-NoZero : (s : List ℕ) → OneLine s → NoZero s
OneLine-NoZero [] h = tt
OneLine-NoZero (c ∷ s) (h, g, more) = (g, OneLine-NoZero s more)

abbrev pub Digits : List ℕ → Type 0
Digits [] = Unit {0}
Digits (c ∷ s) = (is_digit c ≡ true) × Digits s

Digits-append : (s t : List ℕ) → Digits s → Digits t → Digits (s ++ t)
Digits-append [] t h k = k
Digits-append (c ∷ s) t (h, more) k = (h, Digits-append s t more k)

pub Digits-OneLine : (s : List ℕ) → Digits s → OneLine s
Digits-OneLine [] h = tt
Digits-OneLine (c ∷ s) (h, more) = (ground arith, ground arith, Digits-OneLine s more)

pub scan_digits-append :
    (acc : ℕ) (s t : List ℕ)
    → Digits s
    → scan_digits acc (s ++ t) ≡ scan_digits (scan_digits acc s) t
unfolding scan_digits
scan_digits-append acc [] t h = refl
scan_digits-append acc (c ∷ s) t (h, more) =
    rw h (scan_digits-append (acc * 10 + (c - b'0')) s t more)

-- The digits of a number, which scan_digits reads back.
pub record Reads (n : ℕ) (s : List ℕ) : Type 0 where
  pub digits : Digits s
  pub value : scan_digits 0 s ≡ n
  pub head : ℕ
  pub tail : List ℕ
  pub form : s ≡ head ∷ tail

scan_one : (acc c : ℕ) → is_digit c ≡ true → scan_digits acc (c ∷ []) ≡ acc * 10 + (c - b'0')
unfolding scan_digits
scan_one acc c h = rw h

Reads-snoc : (n : ℕ) (s : List ℕ) → Reads (n / 10) s → Reads n (s ++ ((b'0' + n % 10) ∷ []))
Reads-snoc n s d =
    let one : is_digit (b'0' + n % 10) ≡ true = ground arith in
    record {
      digits = Digits-append s ((b'0' + n % 10) ∷ []) d.digits (one, tt);
      value =
          scan_digits-append 0 s ((b'0' + n % 10) ∷ []) d.digits
          ∙ scan_one (scan_digits 0 s) (b'0' + n % 10) one
          ∙ omega (arith, d.value);
      head = d.head;
      tail = d.tail ++ ((b'0' + n % 10) ∷ []);
      form = ap (λ (l : List ℕ). l ++ ((b'0' + n % 10) ∷ [])) d.form;
    }

pub decimal_acc-Reads : (n : ℕ) (w : Acc ◌<◌ n) → Reads n (decimal_acc n w)
unfolding decimal_acc
decimal_acc-Reads n (Acc.intro _ smaller) = elim (dec_lt n 10) [
  | yes p ↦
      let d : is_digit (b'0' + n) ≡ true = ground arith in
      rw (dif_pos (dec_lt n 10) le_prop p) (record {
        digits = (d, tt);
        value = scan_one 0 (b'0' + n) d ∙ omega arith;
        head = b'0' + n;
        tail = [];
        form = refl;
      })
  | no p ↦
      rw (dif_neg (dec_lt n 10) p)
        (Reads-snoc n _ (decimal_acc-Reads (n / 10) (smaller (n / 10) (omega arith))))
]

pub decimal-Reads : (n : ℕ) → Reads n (decimal n)
unfolding decimal
decimal-Reads n = decimal_acc-Reads n (lt_wf.apply n)
