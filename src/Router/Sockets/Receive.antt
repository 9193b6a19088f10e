-- ===== src/Router/Sockets/Receive.antt =====
-- Which packet get_packet of Tema_1/skel.c gives, and when it gives none.
use communication_protocols.Base.{
  ℕ, zero, suc, ◌+◌, ◌<◌, ◌≡◌, ◌⊎◌, inl, inr, refl, ap, subst, Bool, true, false, Bool-cases,
  Option, none, some, Option-cases, List, [], ◌∷◌, ◌++◌, arith, length, get_elem?,
}
use communication_protocols.Router.Bytes.{store}
use communication_protocols.Router.Frames.{Packet}
use communication_protocols.Router.Sockets.{
  Io, done, dies, waits, faults, Wake, first_ready, socket_receive_message, get_packet,
}

-- The descriptor of interface k is ready, and that of no interface before it.
pub record IsFirst (set : ℕ → Bool) (interfaces : List ℕ) (k : ℕ) : Type 0 where
  pub descriptor : ℕ
  pub here : get_elem? interfaces k ≡ some descriptor
  pub ready : set descriptor ≡ true
  pub before : (j s : ℕ) → j < k → get_elem? interfaces j ≡ some s → set s ≡ false

abbrev pub AllShut : (ℕ → Bool) → List ℕ → Type 0
AllShut set [] = Unit {0}
AllShut set (s ∷ interfaces) = (set s ≡ false) × AllShut set interfaces

abbrev FirstFrom : (ℕ → Bool) → ℕ → List ℕ → Option ℕ → Type 0
FirstFrom set i interfaces none = AllShut set interfaces
FirstFrom set i interfaces (some k) = (j : ℕ) × (k ≡ i + j) × IsFirst set interfaces j

first_later :
    (set : ℕ → Bool) (i s : ℕ) (interfaces : List ℕ) (o : Option ℕ)
    → set s ≡ false
    → FirstFrom set (i + 1) interfaces o
    → FirstFrom set i (s ∷ interfaces) o
first_later set i s interfaces none shut h = (shut, h)
first_later set i s interfaces (some k) shut (j, at, first) = (
  suc j,
  omega arith,
  record { descriptor = first.descriptor; here = first.here; ready = first.ready; before = before },
)
  where
    before : (l t : ℕ) → l < suc j → get_elem? (s ∷ interfaces) l ≡ some t → set t ≡ false
    before zero t lt e = ground arith
    before (suc l) t lt e = first.before l t (omega arith) e

first_ready-First :
    (set : ℕ → Bool) (i : ℕ) (interfaces : List ℕ)
    → FirstFrom set i interfaces (first_ready set i interfaces)
unfolding first_ready
first_ready-First set i [] = tt
first_ready-First set i (s ∷ interfaces) = elim (Bool-cases (set s)) [
  | inl e ↦
      rw (FirstFrom, first_ready, e)
        (
          0,
          omega arith,
          record {
            descriptor = s;
            here = refl;
            ready = e;
            before = λ j t lt f. absurd (omega arith);
          },
        )
  | inr e ↦
      rw (first_ready, e)
        (first_later set i s interfaces (first_ready set (i + 1) interfaces) e
          (first_ready-First set (i + 1) interfaces))
]

-- Select came back, and no interface was ready.
abbrev pub IsQuiet : List ℕ → Wake → Type 0
IsQuiet interfaces w = (set : ℕ → Bool) × (w.ready ≡ some set) × AllShut set interfaces

abbrev pub Quiet : List ℕ → List Wake → Type 0
Quiet interfaces [] = Unit {0}
Quiet interfaces (w ∷ ws) = IsQuiet interfaces w × Quiet interfaces ws

-- The packet that a ready interface gives.
pub record Received (interfaces : List ℕ) (w : Wake) (m : Packet) : Type 0 where
  pub set : ℕ → Bool
  pub bytes : List ℕ
  pub selected : w.ready ≡ some set
  pub first : IsFirst set interfaces m.interface
  pub read : w.bytes ≡ some bytes
  pub len : m.len ≡ length bytes
  pub payload : m.payload ≡ store w.payload 0 bytes

-- What get_packet says of the answers: quiet ones, and then the one that ends it.
abbrev pub GetOutcome : List ℕ → List Wake → Io (Packet × List Wake) → Type 0
GetOutcome interfaces ws (done (m, rest)) =
    (idle : List Wake) × (w : Wake) × (ws ≡ idle ++ (w ∷ rest))
    × Quiet interfaces idle
    × Received interfaces w m
GetOutcome interfaces ws dies =
    (idle : List Wake) × (w : Wake) × (rest : List Wake) × (ws ≡ idle ++ (w ∷ rest))
    × Quiet interfaces idle
    × ((w.ready ≡ none) ⊎ (w.bytes ≡ none))
GetOutcome interfaces ws waits = Quiet interfaces ws
GetOutcome interfaces ws faults = ⊥

quiet_one :
    (interfaces : List ℕ) (w : Wake) (ws : List Wake) (o : Io (Packet × List Wake))
    → IsQuiet interfaces w
    → GetOutcome interfaces ws o
    → GetOutcome interfaces (w ∷ ws) o
quiet_one interfaces w ws (done (m, rest)) q (idle, v, e, quiet, got) =
    (w ∷ idle, v, ap (λ (l : List Wake). w ∷ l) e, (q, quiet), got)
quiet_one interfaces w ws dies q (idle, v, rest, e, quiet, why) =
    (w ∷ idle, v, rest, ap (λ (l : List Wake). w ∷ l) e, (q, quiet), why)
quiet_one interfaces w ws waits q h = (q, h)
quiet_one interfaces w ws faults q h = h

-- get_packet waits while no interface is ready. It gives the bytes of the read from the ready interface
-- with the lowest number, with this number, and ends the program if select or this read fails.
pub get_packet-GetOutcome :
    (interfaces : List ℕ) (ws : List Wake) → GetOutcome interfaces ws (get_packet interfaces ws)
unfolding get_packet socket_receive_message
get_packet-GetOutcome interfaces [] = tt
get_packet-GetOutcome interfaces (w ∷ ws) = elim (Option-cases w.ready) [
  | inl e ↦ rw (GetOutcome, get_packet, e) ([], w, ws, refl, tt, inl e)
  | inr (set, e) ↦
      selected set e (first_ready set 0 interfaces) refl (first_ready-First set 0 interfaces)
        (get_packet-GetOutcome interfaces ws)
]
  where
    selected :
        (set : ℕ → Bool)
        → w.ready ≡ some set
        → (o : Option ℕ) → first_ready set 0 interfaces ≡ o
        → FirstFrom set 0 interfaces o
        → GetOutcome interfaces ws (get_packet interfaces ws)
        → GetOutcome interfaces (w ∷ ws) (get_packet interfaces (w ∷ ws))
    selected set e none f h later =
        rw (GetOutcome, get_packet, e, f)
          (quiet_one interfaces w ws (get_packet interfaces ws) (set, e, h) later)
    selected set e (some k) f (j, at, first) later =
        let here : IsFirst set interfaces k =
          subst (λ l. IsFirst set interfaces l) (omega arith) first in
        elim (Option-cases w.bytes) [
          | inl g ↦
              rw (GetOutcome, get_packet, e, f, socket_receive_message, g)
                ([], w, ws, refl, tt, inr g)
          | inr (bytes, g) ↦
              rw (GetOutcome, get_packet, e, f, socket_receive_message, g)
                (
                  [],
                  w,
                  refl,
                  tt,
                  record {
                    set = set;
                    bytes = bytes;
                    selected = e;
                    first = here;
                    read = g;
                    len = refl;
                    payload = refl;
                  },
                )
        ]
