-- ===== src/Router/Frames.antt =====
-- Packets and the frames that the router sends: struct packet and the protocol headers of
-- Tema_1/include/skel.h, and send_packet, build_ethhdr, send_icmp, send_icmp_error, send_arp,
-- parse_arp and parse_icmp of Tema_1/skel.c. A send is an entry of a trace: the interface and the
-- bytes that `write` is given. A header that the code fills and copies is the list of its bytes.
pub mod Icmp
pub mod Arp
use communication_protocols.Base.{
  ℕ, ◌%◌, Option, none, some, List, [], ◌∷◌, ◌++◌, ◌==◌, if◌then◌else◌,
}
use communication_protocols.Router.Bytes.{Payload, slice, load16, bytes16, bytes32, htons}
use communication_protocols.Router.Checksum.{ip_checksum, icmp_checksum}

pub record Packet : Type 0 where
  pub len : ℕ
  pub payload : Payload
  pub interface : ℕ

pub record Sent : Type 0 where
  pub interface : ℕ
  pub bytes : List ℕ

abbrev pub ethertype_ip : ℕ
ethertype_ip = 0x0800

abbrev pub ethertype_arp : ℕ
ethertype_arp = 0x0806

abbrev pub icmp_echoreply : ℕ
icmp_echoreply = 0

abbrev pub icmp_dest_unreach : ℕ
icmp_dest_unreach = 3

abbrev pub icmp_echo : ℕ
icmp_echo = 8

abbrev pub icmp_time_exceeded : ℕ
icmp_time_exceeded = 11

abbrev pub arpop_request : ℕ
arpop_request = 1

abbrev pub arpop_reply : ℕ
arpop_reply = 2

-- write(interfaces[interface], m->payload, m->len)
unfoldable pub send_packet : ℕ → Packet → Sent
send_packet interface m = record { interface = interface; bytes = slice m.payload 0 m.len }

-- struct ether_header; ether_type is the value that the host stores.
pub record EtherHeader : Type 0 where
  pub ether_dhost : List ℕ
  pub ether_shost : List ℕ
  pub ether_type : ℕ

abbrev pub eth_bytes : EtherHeader → List ℕ
eth_bytes eth = eth.ether_dhost ++ (eth.ether_shost ++ bytes16 eth.ether_type)

pub build_ethhdr : (sha dha : List ℕ) → ℕ → EtherHeader
build_ethhdr sha dha type = record { ether_dhost = dha; ether_shost = sha; ether_type = type }

-- The header without options that both ICMP functions fill, with `check` as its checksum.
abbrev pub ip_bytes : (saddr daddr check : ℕ) → List ℕ
ip_bytes saddr daddr check =
    0x45 ∷ 0 ∷ bytes16 (htons 28)
    ++ (bytes16 (htons 1)
        ++ (bytes16 0 ++ (64 ∷ 1 ∷ bytes16 check ++ (bytes32 saddr ++ bytes32 daddr))))

abbrev pub icmp_bytes : (type code check id seq : ℕ) → List ℕ
icmp_bytes type code check id seq =
    type % 256 ∷ code % 256 ∷ bytes16 check ++ (bytes16 id ++ bytes16 seq)

-- `hdr_addr` is the address of the local `ip_hdr`.
module _ (hdr_addr : ℕ) where
  unfoldable pub send_icmp :
      (daddr saddr : ℕ) (sha dha : List ℕ) (type code interface id seq : ℕ) → Sent
  unfolding build_ethhdr ip_checksum icmp_checksum
  send_icmp daddr saddr sha dha type code interface id seq =
      let eth : EtherHeader = build_ethhdr sha dha (htons ethertype_ip) in
      let ip_check : ℕ = ip_checksum hdr_addr (ip_bytes saddr daddr 0) in
      let icmp_check : ℕ = icmp_checksum (icmp_bytes type code 0 id seq) in
      record {
        interface = interface;
        bytes =
            eth_bytes eth
            ++ (ip_bytes saddr daddr ip_check ++ icmp_bytes type code icmp_check id seq);
      }

  -- The same with the rest of the ICMP header zero.
  unfoldable pub send_icmp_error :
      (daddr saddr : ℕ) (sha dha : List ℕ) (type code interface : ℕ) → Sent
  unfolding build_ethhdr ip_checksum icmp_checksum
  send_icmp_error daddr saddr sha dha type code interface =
      let eth : EtherHeader = build_ethhdr sha dha (htons ethertype_ip) in
      let ip_check : ℕ = ip_checksum hdr_addr (ip_bytes saddr daddr 0) in
      let icmp_check : ℕ = icmp_checksum (icmp_bytes type code 0 0 0) in
      record {
        interface = interface;
        bytes =
            eth_bytes eth ++ (ip_bytes saddr daddr ip_check ++ icmp_bytes type code icmp_check 0 0);
      }

-- `arp_op` is the value that the host stores, htons(ARPOP_…).
unfoldable pub send_arp : (daddr saddr : ℕ) → EtherHeader → (interface arp_op : ℕ) → Sent
send_arp daddr saddr eth interface arp_op = record {
  interface = interface;
  bytes =
      eth_bytes eth
      ++ (bytes16 (htons 1)
          ++ (bytes16 (htons 2048)
              ++ (6 ∷ 4 ∷ bytes16 arp_op
                  ++ (eth.ether_shost ++ (bytes32 saddr ++ (eth.ether_dhost ++ bytes32 daddr))))));
}

-- The offset of the header in the buffer, or NULL.
unfoldable pub parse_arp : Payload → Option ℕ
parse_arp buffer = if htons (load16 buffer 12) == ethertype_arp then some 14 else none

unfoldable pub parse_icmp : Payload → Option ℕ
parse_icmp buffer =
    if htons (load16 buffer 12) == ethertype_ip
    then (if buffer 23 == 1 then some 34 else none)
    else none
