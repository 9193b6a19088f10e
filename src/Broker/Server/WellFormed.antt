-- ===== src/Broker/Server/WellFormed.antt =====
-- The shape of the state of Tema_2/server.cpp: keys are unique, a client stands under its id, and
-- maxfd is as large as every descriptor of the read set.
use communication_protocols.Base.{
  ℕ, ◌≤◌, max, ◌≡◌, inl, inr, Bool-cases, some, List, [], ◌∷◌, arith, subst,
}
use communication_protocols.CString.{same, same_iff}
use communication_protocols.Broker.Map.{
  Map, before, lookup, place, has, insert, adjust, each, erase,
}
use communication_protocols.Broker.Map.Laws.{
  IsUnique, each-IsUnique, adjust-IsUnique, insert-IsUnique, erase-IsUnique,
}
use communication_protocols.Broker.Command.{unwatch}
use communication_protocols.Broker.State.{Client, Topics, Server}

abbrev pub Keyed : Map Client → Type 0
Keyed [] = Unit {0}
Keyed ((k, c) ∷ m) = (c.id ≡ k) × Keyed m

pub record IsClients (m : Map Client) : Type 0 where
  pub keyed : Keyed m
  pub unique : IsUnique m

abbrev pub AllSubs : Topics → Type 0
AllSubs [] = Unit {0}
AllSubs ((t, subs) ∷ m) = IsClients subs × AllSubs m

-- select(maxfd + 1, …) looks at these descriptors.
abbrev pub Watched : List ℕ → ℕ → Type 0
Watched [] most = Unit {0}
Watched (fd ∷ fds) most = (fd ≤ most) × Watched fds most

pub Watched-max :
    (fd : ℕ) (fds : List ℕ) (most : ℕ) → Watched fds most → Watched (fd ∷ fds) (max fd most)
Watched-max fd fds most h = (omega arith, wider fds h)
  where
    wider : (fds : List ℕ) → Watched fds most → Watched fds (max fd most)
    wider [] h = tt
    wider (d ∷ fds) h = (omega (arith, h.0), wider fds h.1)

pub Watched-unwatch :
    (i : ℕ) (fds : List ℕ) (most : ℕ) → Watched fds most → Watched (unwatch i fds) most
unfolding unwatch
Watched-unwatch i [] most h = tt
Watched-unwatch i (fd ∷ fds) most h = ground (arith, h.0, Watched-unwatch i fds most h.1)

pub record IsServer (s : Server) : Type 0 where
  pub clients : IsClients s.clients
  pub subs : AllSubs s.topics_subs
  pub topics : IsUnique s.topics_subs
  pub watched : Watched s.read_fds s.maxfd

pub lookup-id :
    (m : Map Client) (k : List ℕ) (c : Client) → Keyed m → lookup k m ≡ some c → c.id ≡ k
unfolding lookup
lookup-id [] k c h e = absurd (cc e)
lookup-id ((j, d) ∷ m) k c h e = ground (arith, lookup-id m k c h.1, same_iff k j)

abbrev pub KeepsId : (Client → Client) → Type 0
KeepsId f = (c : Client) → (f c).id ≡ c.id

each-Keyed : (f : Client → Client) (m : Map Client) → KeepsId f → Keyed m → Keyed (each f m)
unfolding each
each-Keyed f [] keep h = tt
each-Keyed f ((k, c) ∷ m) keep h = (ground (arith, keep c), each-Keyed f m keep h.1)

adjust-Keyed :
    (k : List ℕ) (f : Client → Client) (m : Map Client) → KeepsId f → Keyed m → Keyed (adjust k f m)
unfolding adjust
adjust-Keyed k f [] keep h = tt
adjust-Keyed k f ((j, c) ∷ m) keep h = ground (arith, keep c, adjust-Keyed k f m keep h.1)

place-Keyed : (k : List ℕ) (c : Client) (m : Map Client) → c.id ≡ k → Keyed m → Keyed (place k c m)
unfolding place
place-Keyed k c [] e h = (e, tt)
place-Keyed k c ((j, d) ∷ m) e h = ground (arith, place-Keyed k c m e h.1)

erase-Keyed : (k : List ℕ) (m : Map Client) → Keyed m → Keyed (erase k m)
unfolding erase
erase-Keyed k [] h = tt
erase-Keyed k ((j, d) ∷ m) h = ground (arith, erase-Keyed k m h.1)

pub each-IsClients :
    (f : Client → Client) (m : Map Client) → KeepsId f → IsClients m → IsClients (each f m)
each-IsClients f m keep h = record {
  keyed = each-Keyed f m keep h.keyed;
  unique = each-IsUnique f m h.unique;
}

pub adjust-IsClients :
    (k : List ℕ) (f : Client → Client) (m : Map Client)
    → KeepsId f
    → IsClients m
    → IsClients (adjust k f m)
adjust-IsClients k f m keep h = record {
  keyed = adjust-Keyed k f m keep h.keyed;
  unique = adjust-IsUnique k f m h.unique;
}

pub insert-IsClients :
    (k : List ℕ) (c : Client) (m : Map Client) → c.id ≡ k → IsClients m → IsClients (insert k c m)
unfolding insert
insert-IsClients k c m e h = record {
  keyed = ground (arith, place-Keyed k c m e h.keyed);
  unique = insert-IsUnique k c m h.unique;
}

pub erase-IsClients : (k : List ℕ) (m : Map Client) → IsClients m → IsClients (erase k m)
erase-IsClients k m h = record {
  keyed = erase-Keyed k m h.keyed;
  unique = erase-IsUnique k m h.unique;
}

none-IsClients : IsClients []
none-IsClients = record { keyed = tt; unique = tt }

place-AllSubs : (t : List ℕ) (m : Topics) → AllSubs m → AllSubs (place t [] m)
unfolding place
place-AllSubs t [] h = (none-IsClients, tt)
place-AllSubs t ((u, subs) ∷ m) h = elim (Bool-cases (before t u)) [
  | inl e ↦ rw e (none-IsClients, (h.0, h.1))
  | inr e ↦ rw e (h.0, place-AllSubs t m h.1)
]

pub insert-AllSubs : (t : List ℕ) (m : Topics) → AllSubs m → AllSubs (insert t [] m)
unfolding insert
insert-AllSubs t m h = elim (Bool-cases (has t m)) [
  | inl e ↦ rw e h
  | inr e ↦ rw e (place-AllSubs t m h)
]

abbrev pub KeepsClients : (Map Client → Map Client) → Type 0
KeepsClients f = (m : Map Client) → IsClients m → IsClients (f m)

pub adjust-AllSubs :
    (t : List ℕ) (f : Map Client → Map Client) (m : Topics)
    → KeepsClients f
    → AllSubs m
    → AllSubs (adjust t f m)
unfolding adjust
adjust-AllSubs t f [] keep h = tt
adjust-AllSubs t f ((u, subs) ∷ m) keep h = elim (Bool-cases (same t u)) [
  | inl e ↦ rw e (keep subs h.0, h.1)
  | inr e ↦ rw e (h.0, adjust-AllSubs t f m keep h.1)
]

pub each-AllSubs :
    (f : Map Client → Map Client) (m : Topics) → KeepsClients f → AllSubs m → AllSubs (each f m)
unfolding each
each-AllSubs f [] keep h = tt
each-AllSubs f ((u, subs) ∷ m) keep h = (keep subs h.0, each-AllSubs f m keep h.1)

pub lookup-IsClients :
    (t : List ℕ) (m : Topics) (subs : Map Client)
    → AllSubs m
    → lookup t m ≡ some subs
    → IsClients subs
unfolding lookup
lookup-IsClients t [] subs h e = absurd (cc e)
lookup-IsClients t ((u, m) ∷ r) subs h e = elim (Bool-cases (same t u)) [
  | inl f ↦ subst IsClients (some_eq (rw f at e)) h.0
  | inr f ↦ lookup-IsClients t r subs h.1 (rw f at e)
]
  where
    some_eq : some m ≡ some subs → m ≡ subs
    some_eq g = cc g
