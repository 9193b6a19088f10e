-- ===== src/Router/Arp.antt =====
-- The ARP table of Tema_1/router.c: the array of ten entries that `main` allocates, of which the
-- first arp_table_len are in use. The table is the list of the entries in use. A write behind the
-- tenth entry leaves the array: `none`.
pub mod Table
use communication_protocols.Base.{
  ℕ, suc, ◌≡◌, Option, none, some, List, [], ◌∷◌, ◌++◌, ltb, ◌==◌, if◌then◌else◌, length,
}

pub record ArpEntry : Type 0 where
  pub ip : ℕ
  pub mac : List ℕ

-- malloc(sizeof(struct arp_entry) * 10)
abbrev pub capacity : ℕ
capacity = 10

unfoldable pub get_arp_entry : List ArpEntry → ℕ → Option ArpEntry
get_arp_entry [] ip = none
get_arp_entry (e ∷ table) ip = if ip == e.ip then some e else get_arp_entry table ip

-- The write of arp_table[arp_table_len] and arp_table_len++ in `main`, for a sender `spa` that has
-- no entry.
unfoldable pub learn : List ArpEntry → ℕ → List ℕ → Option (List ArpEntry)
unfolding get_arp_entry
learn table spa sha = elim (get_arp_entry table spa) [
  | some _ ↦ some table
  | none ↦
      if ltb (length table) capacity
      then some (table ++ record { ip = spa; mac = sha } ∷ [])
      else none
]
