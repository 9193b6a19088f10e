-- ===== src/Router/Frames/Icmp.antt =====
-- The frames of send_icmp and send_icmp_error (Tema_1/skel.c) are well formed: both checksums hold.
use communication_protocols.Base.{ℕ, ◌%◌, ◌≡◌, refl, List, [], ◌∷◌, ◌++◌, arith}
use communication_protocols.Router.Bytes.{bytes16, bytes32, htons}
use communication_protocols.Router.Checksum.{ip_checksum, icmp_checksum}
use communication_protocols.Router.Checksum.Rfc.{ip_checksum_verifies}
use communication_protocols.Router.Checksum.Icmp.{icmp_checksum_verifies}
use communication_protocols.Router.Frames.{
  ethertype_ip, eth_bytes, ip_bytes, icmp_bytes, send_icmp, send_icmp_error,
}

-- A frame that carries an ICMP message of this type and code from `saddr` to `daddr`: the two parts
-- behind the Ethernet header, each of which passes its checksum at any address.
pub record IsIcmpFrame (saddr daddr type code : ℕ) (sha dha frame : List ℕ) : Type 0 where
  pub ip_check : ℕ
  pub icmp_check : ℕ
  pub id : ℕ
  pub seq : ℕ
  pub layout :
      frame
      ≡ eth_bytes (record { ether_dhost = dha; ether_shost = sha; ether_type = htons ethertype_ip })
        ++ (ip_bytes saddr daddr ip_check ++ icmp_bytes type code icmp_check id seq)
  pub ip_valid : (addr : ℕ) → ip_checksum addr (ip_bytes saddr daddr ip_check) ≡ 0
  pub icmp_valid : icmp_checksum (icmp_bytes type code icmp_check id seq) ≡ 0

ip_bytes-valid :
    (hdr_addr addr saddr daddr : ℕ)
    → ip_checksum addr (ip_bytes saddr daddr (ip_checksum hdr_addr (ip_bytes saddr daddr 0))) ≡ 0
ip_bytes-valid hdr_addr addr saddr daddr =
    ip_checksum_verifies hdr_addr addr 5 (0x45 ∷ 0 ∷ 0 ∷ 28 ∷ 0 ∷ 1 ∷ 0 ∷ 0 ∷ 64 ∷ 1 ∷ [])
      (bytes32 saddr ++ bytes32 daddr) refl (omega arith) (omega arith)

icmp_bytes-valid :
    (type code id seq : ℕ)
    → icmp_checksum (icmp_bytes type code (icmp_checksum (icmp_bytes type code 0 id seq)) id seq)
      ≡ 0
icmp_bytes-valid type code id seq =
    icmp_checksum_verifies 1 (type % 256 ∷ code % 256 ∷ []) (bytes16 id ++ bytes16 seq) refl
      (omega arith) (omega arith)

module _ (hdr_addr daddr saddr : ℕ) (sha dha : List ℕ) (type code interface : ℕ) where
  -- send_icmp sends on the interface a frame whose IP header and ICMP message, of the given type,
  -- code and addresses, both pass their checksums.
  pub send_icmp-IsIcmpFrame :
      (id seq : ℕ)
      → IsIcmpFrame saddr daddr type code sha dha
          (send_icmp hdr_addr daddr saddr sha dha type code interface id seq).bytes
  unfolding send_icmp
  send_icmp-IsIcmpFrame id seq = record {
    ip_check = ip_checksum hdr_addr (ip_bytes saddr daddr 0);
    icmp_check = icmp_checksum (icmp_bytes type code 0 id seq);
    id = id;
    seq = seq;
    layout = refl;
    ip_valid = λ addr. ip_bytes-valid hdr_addr addr saddr daddr;
    icmp_valid = icmp_bytes-valid type code id seq;
  }

  -- So does send_icmp_error.
  pub send_icmp_error-IsIcmpFrame :
      IsIcmpFrame saddr daddr type code sha dha
        (send_icmp_error hdr_addr daddr saddr sha dha type code interface).bytes
  unfolding send_icmp_error
  send_icmp_error-IsIcmpFrame = record {
    ip_check = ip_checksum hdr_addr (ip_bytes saddr daddr 0);
    icmp_check = icmp_checksum (icmp_bytes type code 0 0 0);
    id = 0;
    seq = 0;
    layout = refl;
    ip_valid = λ addr. ip_bytes-valid hdr_addr addr saddr daddr;
    icmp_valid = icmp_bytes-valid type code 0 0;
  }
