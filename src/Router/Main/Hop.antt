-- ===== src/Router/Main/Hop.antt =====
-- The header of a packet that the router sends on (the main loop of Tema_1/router.c).
use communication_protocols.Base.{
  ℕ, ◌+◌, ◌%◌, ◌≤◌, ◌<◌, ◌≡◌, ◌≢◌, refl, ◌∙◌, List, [], ◌∷◌, ◌++◌, arith, length,
}
use communication_protocols.Router.Bytes.{Payload, IsBytes, AllBytes, store, slice}
use communication_protocols.Router.Bytes.Store.{
  AllBytes-slice, store_after, slice-store_after, slice-store_self,
}
use communication_protocols.Router.Checksum.{ip_checksum}
use communication_protocols.Router.Checksum.Rfc.{ip_checksum_verifies}
use communication_protocols.Router.Headers.{
  ttl, ether_dhost, ether_shost, ip_header, update_header, readdress,
}

-- `q` is the payload `p` one hop further: the time to live is one less, the header's checksum holds
-- again at any address, the hardware addresses are the given ones, and no other byte has changed.
pub record IsHop (shost dhost : List ℕ) (p q : Payload) : Type 0 where
  pub counted : ttl q + 1 ≡ ttl p
  pub valid : (addr : ℕ) → ip_checksum addr (ip_header q) ≡ 0
  pub to : ether_dhost q ≡ dhost
  pub from : ether_shost q ≡ shost
  pub kept : (i : ℕ) → 12 ≤ i → i ≢ 22 → i ≢ 24 → i ≢ 25 → q i ≡ p i

header_bytes :
    (p : Payload)
    → IsBytes p
    → AllBytes ((slice p 14 8 ++ ((p 22 + 255) % 256 ∷ p 23 ∷ [])) ++ slice p 26 8)
header_bytes p h =
    let (a, (b, (c, (d, (e, (f, (g, (i, r)))))))) = AllBytes-slice p 14 8 h in
    (a, (b, (c, (d, (e, (f, (g, (i, (omega arith, (h 23, AllBytes-slice p 26 8 h))))))))))

pub update_header-valid :
    (addr addr' : ℕ) (p : Payload)
    → IsBytes p
    → ip_checksum addr' (ip_header (update_header addr p)) ≡ 0
unfolding update_header
update_header-valid addr addr' p h =
    ip_checksum_verifies addr addr' 5 (slice p 14 8 ++ ((p 22 + 255) % 256 ∷ p 23 ∷ []))
      (slice p 26 8) refl (header_bytes p h) (omega arith)

pub update_header-kept :
    (addr : ℕ) (p : Payload) (i : ℕ) → i ≢ 22 → i ≢ 24 → i ≢ 25 → update_header addr p i ≡ p i
unfolding update_header
update_header-kept addr p i a b c = ground arith

pub update_header-ttl :
    (addr : ℕ) (p : Payload) → IsBytes p → 0 < ttl p → ttl (update_header addr p) + 1 ≡ ttl p
unfolding update_header
update_header-ttl addr p h t = let x : p 22 < 256 = h 22 in omega arith

-- A payload whose hardware addresses were set.
module _ (shost dhost : List ℕ) (p : Payload) (six : length shost ≡ 6)
    (six' : length dhost ≡ 6) where
  readdress-kept : (i : ℕ) → 12 ≤ i → readdress shost dhost p i ≡ p i
  unfolding readdress
  readdress-kept i h =
      ground (arith, store_after (store p 6 shost) 0 dhost i, store_after p 6 shost i)

  readdress-ip_header : ip_header (readdress shost dhost p) ≡ ip_header p
  unfolding readdress
  readdress-ip_header =
      slice-store_after (store p 6 shost) 0 dhost 14 20 (omega arith)
      ∙ slice-store_after p 6 shost 14 20 (omega arith)

  readdress-dhost : ether_dhost (readdress shost dhost p) ≡ dhost
  unfolding readdress
  readdress-dhost = rw six' at (slice-store_self (store p 6 shost) 0 dhost)

  readdress-shost : ether_shost (readdress shost dhost p) ≡ shost
  unfolding readdress
  readdress-shost =
      slice-store_after (store p 6 shost) 0 dhost 6 6 (omega arith)
      ∙ rw six at (slice-store_self p 6 shost)

pub readdress-IsHop :
    (addr : ℕ) (shost dhost : List ℕ) (p : Payload)
    → length shost ≡ 6
    → length dhost ≡ 6
    → IsBytes p
    → 0 < ttl p
    → IsHop shost dhost p (readdress shost dhost (update_header addr p))
readdress-IsHop addr shost dhost p a b h t =
    let q : Payload = update_header addr p in
    record {
      counted =
          rw (readdress-kept shost dhost q a b 22 (omega arith)) (update_header-ttl addr p h t);
      valid =
          λ addr'. rw (readdress-ip_header shost dhost q a b) (update_header-valid addr addr' p h);
      to = readdress-dhost shost dhost q a b;
      from = readdress-shost shost dhost q a b;
      kept = λ i le n n' n''.
          readdress-kept shost dhost q a b i le ∙ update_header-kept addr p i n n' n'';
    }
