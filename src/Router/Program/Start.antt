-- ===== src/Router/Program/Start.antt =====
-- What Tema_1/router.c does before its loop goes through or ends in DIE.
use communication_protocols.Base.{
  ℕ, zero, suc, ◌+◌, ◌≤◌, ◌<◌, ◌≡◌, refl, ap, if◌then◌else◌, true, false, Option, none, some, List,
  [], ◌∷◌, map, arith, ltb, lt→ltb, length,
}
use communication_protocols.Router.Route.{RouteTable}
use communication_protocols.Router.Setup.{table_size, set_up}
use communication_protocols.Router.Setup.Rows.{Row, Rows, table_text}
use communication_protocols.Router.Setup.Table.{row_entry, parsing_rtable-Rows}
use communication_protocols.Router.Sockets.{
  Io, done, dies, waits, faults, ◌>>=◌, from, Calls, router_num_interfaces, ifnamsiz, get_sock,
  init_from, fill, init,
}
use communication_protocols.Router.Program.{start}

-- The program ends in DIE, or goes on with a value that satisfies P.
abbrev pub Goes : {A : Type 0} → (A → Type 0) → Io A → Type 0
Goes P (done a) = P a
Goes P dies = Unit {0}
Goes P waits = ⊥
Goes P faults = ⊥

Goes-bind :
    {A B : Type 0} (P : A → Type 0) (Q : B → Type 0) (m : Io A) (f : A → Io B)
    → Goes P m
    → ((a : A) → P a → Goes Q (f a))
    → Goes Q (m >>= f)
Goes-bind P Q (done a) f h k = k a h
Goes-bind P Q dies f h k = tt
Goes-bind P Q waits f h k = h
Goes-bind P Q faults f h k = h

abbrev pub Names : List (List ℕ) → Type 0
Names [] = Unit {0}
Names (name ∷ names) = (length name < ifnamsiz) × Names names

from_dies : {A : Type 0} (o : Option A) → Goes (λ _. Unit {0}) (from dies o)
from_dies none = tt
from_dies (some a) = tt

abbrev Any : {A : Type 0} → A → Type 0
Any _ = Unit {0}

get_sock-Goes :
    (sys : Calls) (name : List ℕ) → length name < ifnamsiz → Goes Any (get_sock sys name)
unfolding get_sock
get_sock-Goes sys name fits =
    let short : ltb (length name) ifnamsiz ≡ true = lt→ltb (length name) ifnamsiz fits in
    Goes-bind Any Any (from dies sys.socket) _ (from_dies sys.socket) λ s _. rw short (
      Goes-bind Any Any (from dies (sys.ifindex name)) _ (from_dies (sys.ifindex name)) λ index _.
        (elim (sys.binds s index) as (λ b. Goes Any (if b then done s else dies)) [
          | true ↦ tt
          | false ↦ tt
        ]))

init_from-Goes :
    (sys : ℕ → Calls) (i : ℕ) (names : List (List ℕ))
    → Names names
    → i + length names ≤ router_num_interfaces
    → Goes (λ opened. length opened ≡ length names) (init_from sys i names)
unfolding init_from
init_from-Goes sys i [] v few = refl
init_from-Goes sys i (name ∷ names) (short, v) few =
    let room : ltb i router_num_interfaces ≡ true = lt→ltb i router_num_interfaces (omega arith) in
    let ih = init_from-Goes sys (i + 1) names v (omega arith) in
    Goes-bind Any (λ (opened : List ℕ). length opened ≡ length (name ∷ names))
      (get_sock (sys i) name) _ (get_sock-Goes (sys i) name short)
      λ s _. rw room (
        Goes-bind (λ (opened : List ℕ). length opened ≡ length names)
          (λ (opened : List ℕ). length opened ≡ length (name ∷ names)) (init_from sys (i + 1) names)
          _ ih λ rest e. ap suc e)

fill-length : (n : ℕ) (opened : List ℕ) → length (fill n opened) ≡ n
unfolding fill
fill-length zero opened = refl
fill-length (suc n) [] = omega (arith, fill-length n [])
fill-length (suc n) (s ∷ opened) = omega (arith, fill-length n opened)

init-Goes :
    (sys : ℕ → Calls) (names : List (List ℕ))
    → Names names
    → length names ≤ router_num_interfaces
    → Goes (λ interfaces. length interfaces ≡ router_num_interfaces) (init sys names)
unfolding init
init-Goes sys names v few =
    Goes-bind (λ (opened : List ℕ). length opened ≡ length names)
      (λ (interfaces : List ℕ). length interfaces ≡ router_num_interfaces) (init_from sys 0 names) _
      (init_from-Goes sys 0 names v (omega arith))
      λ opened _. fill-length router_num_interfaces opened

-- On at most three interface names of less than sixteen characters, and a file of which every line has
-- three words and a number that fit, the program ends in DIE or goes on with three descriptors and the
-- table that qsort makes of the lines.
module _ (inet_addr : List ℕ → ℕ) (qsort : List RouteTable → List RouteTable) (calls : ℕ → Calls)
    (files : List ℕ → Option (List ℕ)) (program file : List ℕ) (names : List (List ℕ))
    (rs : List Row) where
  pub start-Goes :
      Names names
      → length names ≤ router_num_interfaces
      → files file ≡ some (table_text rs)
      → Rows rs
      → length rs ≤ table_size
      → Goes
          (λ r. (length r.0 ≡ router_num_interfaces) × (r.1 ≡ qsort (map (row_entry inet_addr) rs)))
          (start inet_addr qsort calls files (program ∷ file ∷ names))
  unfolding start set_up
  start-Goes short few there rows fits =
      Goes-bind (λ (interfaces : List ℕ). length interfaces ≡ router_num_interfaces)
        (λ (r : List ℕ × List RouteTable).
          (length r.0 ≡ router_num_interfaces) × (r.1 ≡ qsort (map (row_entry inet_addr) rs)))
        (init calls names) _ (init-Goes calls names short few)
        λ interfaces e. rw there (rw (set_up, parsing_rtable-Rows inet_addr rs rows fits) (e, refl))
