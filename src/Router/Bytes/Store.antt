-- ===== src/Router/Bytes/Store.antt =====
-- Copying bytes into a payload: what is read inside and outside the copied range.
use communication_protocols.Base.{
  ℕ, zero, suc, ◌+◌, ◌≤◌, ◌<◌, ◌≡◌, refl, ap, List, [], ◌∷◌, arith, length,
}
use communication_protocols.Router.Bytes.{Payload, IsBytes, AllBytes, put, store, slice}

pub store_before : (p : Payload) (i : ℕ) (bs : List ℕ) (j : ℕ) → j < i → store p i bs j ≡ p j
store_before p i [] j h = refl
store_before p i (b ∷ bs) j h = ground (arith, store_before (put p i b) (i + 1) bs j)

pub store_after :
    (p : Payload) (i : ℕ) (bs : List ℕ) (j : ℕ) → i + length bs ≤ j → store p i bs j ≡ p j
store_after p i [] j h = refl
store_after p i (b ∷ bs) j h = ground (arith, store_after (put p i b) (i + 1) bs j)

pub slice-store_after :
    (p : Payload) (i : ℕ) (bs : List ℕ) (j n : ℕ)
    → i + length bs ≤ j
    → slice (store p i bs) j n ≡ slice p j n
slice-store_after p i bs j zero h = refl
slice-store_after p i bs j (suc n) h =
    ground (arith, store_after p i bs j, slice-store_after p i bs (j + 1) n)

pub slice-store_before :
    (p : Payload) (i : ℕ) (bs : List ℕ) (j n : ℕ)
    → j + n ≤ i
    → slice (store p i bs) j n ≡ slice p j n
slice-store_before p i bs j zero h = refl
slice-store_before p i bs j (suc n) h =
    ground (arith, store_before p i bs j, slice-store_before p i bs (j + 1) n)

pub slice-store_self : (p : Payload) (i : ℕ) (bs : List ℕ) → slice (store p i bs) i (length bs) ≡ bs
slice-store_self p i [] = refl
slice-store_self p i (b ∷ bs) =
    ground (arith, store_before (put p i b) (i + 1) bs i, slice-store_self (put p i b) (i + 1) bs)

pub AllBytes-slice : (p : Payload) (i n : ℕ) → IsBytes p → AllBytes (slice p i n)
AllBytes-slice p i zero h = tt
AllBytes-slice p i (suc n) h = (h i, AllBytes-slice p (i + 1) n h)

pub IsBytes-store :
    (p : Payload) (i : ℕ) (bs : List ℕ) → IsBytes p → AllBytes bs → IsBytes (store p i bs)
IsBytes-store p i [] h k = h
IsBytes-store p i (b ∷ bs) h k =
    IsBytes-store (put p i b) (i + 1) bs (λ j. let x : p j < 256 = h j in ground arith) k.1

pub length-slice : (p : Payload) (i n : ℕ) → length (slice p i n) ≡ n
length-slice p i zero = refl
length-slice p i (suc n) = ap suc (length-slice p (i + 1) n)
