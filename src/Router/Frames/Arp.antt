-- ===== src/Router/Frames/Arp.antt =====
-- The ARP frames of send_arp in Tema_1/skel.c, as a router that receives them reads them.
use communication_protocols.Base.{
  ℕ, ◌+◌, ◌*◌, ◌/◌, ◌%◌, ◌^◌, ◌<◌, ◌≡◌, refl, sym, subst, List, [], ◌∷◌, arith, length,
}
use communication_protocols.Router.Bytes.{Payload, store}
use communication_protocols.Router.Frames.{Packet, Sent, EtherHeader, send_arp}
use communication_protocols.Router.Headers.{ether_type, ether_shost, op, sha, spa, tpa}

-- A frame as the next router gets it, in a packet that held `p` before.
abbrev pub arrives : Payload → (interface : ℕ) → Sent → Packet
arrives p interface f = record {
  len = length f.bytes;
  payload = store p 0 f.bytes;
  interface = interface;
}

-- What the fields of a received ARP frame are.
pub record ArpFields (q : Payload) (target source kind code : ℕ) (mac : List ℕ) : Type 0 where
  pub type_back : ether_type q ≡ kind
  pub shost_back : ether_shost q ≡ mac
  pub op_back : op q ≡ code
  pub sha_back : sha q ≡ mac
  pub spa_back : spa q ≡ source
  pub tpa_back : tpa q ≡ target

abbrev six : (a b c d e f : ℕ) → List ℕ
six a b c d e f = a ∷ b ∷ c ∷ d ∷ e ∷ f ∷ []

six_bytes : (l : List ℕ) → length l ≡ 6 → (a b c d e f : ℕ) × (l ≡ six a b c d e f)
six_bytes (a ∷ b ∷ c ∷ d ∷ e ∷ f ∷ []) h = (a, b, c, d, e, f, refl)
six_bytes l h = absurd (omega arith)

bytes16_back : (v : ℕ) → v < 2 ^ 16 → v % 256 + 256 * ((v / 256) % 256) ≡ v
bytes16_back v h = omega arith

bytes32_back :
    (v : ℕ)
    → v < 2 ^ 32
    → v % 256
        + 256 * ((v / 256) % 256)
        + 65536 * ((v / 65536) % 256)
        + 16777216 * ((v / 16777216) % 256)
      ≡ v
bytes32_back v h = omega arith

module _ (p : Payload) (daddr saddr type arp_op interface a b c d e f g h i j k l : ℕ)
    (to : daddr < 2 ^ 32) (by : saddr < 2 ^ 32) (of : type < 2 ^ 16) (what : arp_op < 2 ^ 16) where
  fields_of_six :
      ArpFields
        (store p 0
          (send_arp daddr saddr
            (record {
              ether_dhost = six a b c d e f;
              ether_shost = six g h i j k l;
              ether_type = type;
            })
            interface
            arp_op).bytes)
        daddr
        saddr
        type
        arp_op
        (six g h i j k l)
  unfolding send_arp
  fields_of_six = record {
    type_back = bytes16_back type of;
    shost_back = refl;
    op_back = bytes16_back arp_op what;
    sha_back = refl;
    spa_back = bytes32_back saddr by;
    tpa_back = bytes32_back daddr to;
  }

-- The fields of an ARP frame are read back as they were sent, whatever the packet held before.
pub send_arp-ArpFields :
    (p : Payload) (daddr saddr : ℕ) (eth : EtherHeader) (interface arp_op : ℕ)
    → length eth.ether_dhost ≡ 6
    → length eth.ether_shost ≡ 6
    → daddr < 2 ^ 32
    → saddr < 2 ^ 32
    → eth.ether_type < 2 ^ 16
    → arp_op < 2 ^ 16
    → ArpFields
        (store p 0 (send_arp daddr saddr eth interface arp_op).bytes)
        daddr
        saddr
        eth.ether_type
        arp_op
        eth.ether_shost
send_arp-ArpFields p daddr saddr eth interface arp_op dsix ssix to by of what =
    let (a, b, c, d, e, f, dform) = six_bytes eth.ether_dhost dsix in
    let (g, h, i, j, k, l, sform) = six_bytes eth.ether_shost ssix in
    subst
      (λ dh.
        ArpFields
          (store p 0
            (send_arp daddr saddr (record eth { ether_dhost = dh }) interface arp_op).bytes)
          daddr saddr eth.ether_type arp_op eth.ether_shost)
      (sym dform)
      (subst
        (λ sh.
          ArpFields
            (store p 0
              (send_arp daddr saddr
                (record {
                  ether_dhost = six a b c d e f;
                  ether_shost = sh;
                  ether_type = eth.ether_type;
                })
                interface arp_op).bytes)
            daddr saddr eth.ether_type arp_op sh)
        (sym sform)
        (fields_of_six p daddr saddr eth.ether_type arp_op interface a b c d e f g h i j k l to by
          of what))
