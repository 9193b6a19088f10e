-- ===== src/Router/Headers.antt =====
-- The fields of the headers that Tema_1/router.c reads from and writes to a packet's payload, by the
-- layouts of struct ether_header, struct iphdr and struct arp_header: lines 167 to 170, 189 and 190
-- update them.
use communication_protocols.Base.{ℕ, ◌+◌, ◌%◌, List}
use communication_protocols.Router.Bytes.{Payload, put, store, slice, load16, load32, bytes16}
use communication_protocols.Router.Checksum.{ip_checksum}

-- Header fields: the Ethernet header is at 0, the IP and ARP headers are at 14.
abbrev pub ether_type : Payload → ℕ
ether_type p = load16 p 12

abbrev pub ether_dhost : Payload → List ℕ
ether_dhost p = slice p 0 6

abbrev pub ether_shost : Payload → List ℕ
ether_shost p = slice p 6 6

abbrev pub ttl : Payload → ℕ
ttl p = p 22

abbrev pub saddr : Payload → ℕ
saddr p = load32 p 26

abbrev pub daddr : Payload → ℕ
daddr p = load32 p 30

abbrev pub op : Payload → ℕ
op p = load16 p 20

abbrev pub sha : Payload → List ℕ
sha p = slice p 22 6

abbrev pub spa : Payload → ℕ
spa p = load32 p 28

abbrev pub tpa : Payload → ℕ
tpa p = load32 p 38

abbrev pub ip_header : Payload → List ℕ
ip_header p = slice p 14 20

-- ip_hdr->ttl--; ip_hdr->check = 0; ip_hdr->check = ip_checksum(…)
unfoldable pub update_header : ℕ → Payload → Payload
update_header addr p =
    let q : Payload = store (put p 22 ((ttl p + 255) % 256)) 24 (bytes16 0) in
    store q 24 (bytes16 (ip_checksum addr (ip_header q)))

-- The hardware addresses of a frame that is sent on.
unfoldable pub readdress : (shost dhost : List ℕ) → Payload → Payload
readdress shost dhost p = store (store p 6 shost) 0 dhost
