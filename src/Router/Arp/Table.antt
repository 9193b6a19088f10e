-- ===== src/Router/Arp/Table.antt =====
-- The ARP table of Tema_1/router.c: no address twice, first answer kept, ten entries at most.
use communication_protocols.Base.{
  ℕ, ◌+◌, ◌≤◌, ◌<◌, ◌≡◌, ◌↔◌, refl, inl, inr, ◌⊎◌, none, some, List, [], ◌∷◌, ◌++◌, arith, ◌==◌,
  if◌then◌else◌, length, length-append, Option-cases,
}
use communication_protocols.Router.Arp.{ArpEntry, capacity, get_arp_entry, learn}

-- No address stands twice.
abbrev pub IsDistinct : List ArpEntry → Type 0
IsDistinct [] = Unit {0}
IsDistinct (e ∷ table) = (get_arp_entry table e.ip ≡ none) × IsDistinct table

pub record IsArpTable (table : List ArpEntry) : Type 0 where
  pub distinct : IsDistinct table
  pub fits : length table ≤ capacity

get_arp_entry-append :
    (table : List ArpEntry) (e : ArpEntry) (ip : ℕ)
    → get_arp_entry (table ++ e ∷ []) ip ≡ (elim (get_arp_entry table ip) [
      | some f ↦ some f
      | none ↦ if ip == e.ip then some e else none
    ])
unfolding get_arp_entry
get_arp_entry-append [] e ip = ground arith
get_arp_entry-append (f ∷ table) e ip = ground (arith, get_arp_entry-append table e ip)

IsDistinct-append :
    (table : List ArpEntry) (e : ArpEntry)
    → IsDistinct table
    → get_arp_entry table e.ip ≡ none
    → IsDistinct (table ++ e ∷ [])
unfolding get_arp_entry
IsDistinct-append [] e d a = (refl, tt)
IsDistinct-append (f ∷ table) e d a = (
  ground (arith, get_arp_entry-append table e f.ip),
  IsDistinct-append table e d.1 (ground arith),
)

-- The entry that a reply adds.
abbrev entry : ℕ → List ℕ → ArpEntry
entry spa sha = record { ip = spa; mac = sha }

-- The two ways in which a reply is stored.
learn_cases :
    (table table' : List ArpEntry) (spa : ℕ) (sha : List ℕ)
    → learn table spa sha ≡ some table'
    → (((e : ArpEntry) × (get_arp_entry table spa ≡ some e)) × (table' ≡ table))
      ⊎ ((get_arp_entry table spa ≡ none)
          × (length table < capacity)
          × (table' ≡ table ++ entry spa sha ∷ []))
unfolding learn
learn_cases table table' spa sha h = elim (Option-cases (get_arp_entry table spa)) [
  | inr (e, known) ↦ inl ((e, known), ground arith)
  | inl new ↦ inr (new, ground arith, ground arith)
]

-- An ARP reply keeps the table free of double addresses and within its ten entries; it fails
-- exactly if the sender is new and the ten entries are taken.
pub learn-IsArpTable :
    (table : List ArpEntry) (spa : ℕ) (sha : List ℕ)
    → IsArpTable table
    → ((table' : List ArpEntry) → learn table spa sha ≡ some table' → IsArpTable table')
      × ((learn table spa sha ≡ none)
          ↔ ((get_arp_entry table spa ≡ none) × (length table ≡ capacity)))
unfolding learn
learn-IsArpTable table spa sha v = (
  λ table' h. elim (learn_cases table table' spa sha h) [
    | inl (_, same) ↦ rw same v
    | inr (new, room, more) ↦ rw more (record {
      distinct = IsDistinct-append table (entry spa sha) v.distinct new;
      fits = omega (arith, length-append table (entry spa sha ∷ []));
    })
  ],
  (λ e. ground arith, λ h. ground arith),
)

-- After a reply that was stored, looking an address up gives the entry it had before, and for the
-- sender, where it had none, the hardware address of the reply.
pub get_arp_entry-learn :
    (table table' : List ArpEntry) (spa ip : ℕ) (sha : List ℕ)
    → learn table spa sha ≡ some table'
    → get_arp_entry table' ip ≡ (elim (get_arp_entry table ip) [
      | some e ↦ some e
      | none ↦ if ip == spa then some (record { ip = spa; mac = sha }) else none
    ])
get_arp_entry-learn table table' spa ip sha h = elim (learn_cases table table' spa sha h) [
  | inl ((e, known), same) ↦ rw same (kept e known)
  | inr (new, room, more) ↦ rw more (get_arp_entry-append table (entry spa sha) ip)
]
  where
    kept :
        (e : ArpEntry)
        → get_arp_entry table spa ≡ some e
        → get_arp_entry table ip ≡ (elim (get_arp_entry table ip) [
          | some f ↦ some f
          | none ↦ if ip == spa then some (entry spa sha) else none
        ])
    kept e known = ground arith

-- Every hardware address has six bytes.
abbrev pub HasMacs : List ArpEntry → Type 0
HasMacs [] = Unit {0}
HasMacs (e ∷ table) = (length e.mac ≡ 6) × HasMacs table

pub get_arp_entry-mac :
    (table : List ArpEntry) (ip : ℕ) (e : ArpEntry)
    → HasMacs table
    → get_arp_entry table ip ≡ some e
    → length e.mac ≡ 6
unfolding get_arp_entry
get_arp_entry-mac [] ip e h k = absurd (cc k)
get_arp_entry-mac (f ∷ table) ip e h k = ground (arith, get_arp_entry-mac table ip e h.1)

HasMacs-append :
    (table : List ArpEntry) (e : ArpEntry)
    → HasMacs table
    → length e.mac ≡ 6
    → HasMacs (table ++ e ∷ [])
HasMacs-append [] e h k = (k, tt)
HasMacs-append (f ∷ table) e h k = (h.0, HasMacs-append table e h.1 k)

pub learn-HasMacs :
    (table table' : List ArpEntry) (spa : ℕ) (sha : List ℕ)
    → HasMacs table
    → length sha ≡ 6
    → learn table spa sha ≡ some table'
    → HasMacs table'
learn-HasMacs table table' spa sha h k e = elim (learn_cases table table' spa sha e) [
  | inl (_, same) ↦ rw same h
  | inr (new, room, more) ↦ rw more (HasMacs-append table (entry spa sha) h k)
]

pub length-learn :
    (table table' : List ArpEntry) (spa : ℕ) (sha : List ℕ)
    → learn table spa sha ≡ some table'
    → length table' ≤ length table + 1
length-learn table table' spa sha e = elim (learn_cases table table' spa sha e) [
  | inl (_, same) ↦ rw same (omega arith)
  | inr (new, room, more) ↦ rw more (omega (arith, length-append table (entry spa sha ∷ [])))
]
