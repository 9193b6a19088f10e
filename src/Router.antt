-- ===== src/Router.antt =====
-- The router of Tema_1: Bytes (the words of a packet in memory), Hex (hardware addresses in text),
-- Checksum (the checksums of skel.c), Route (the look-up of router.c), Arp (its ARP table), Queue
-- (queue.c and list.c), Frames (what skel.c sends and parses), Headers (the fields of a packet),
-- Sockets (the interfaces of skel.c), Setup (the routing table's file), Main (the rounds of router.c) and
-- Program (main from its start on).
pub mod Bytes
pub mod Hex
pub mod Checksum
pub mod Route
pub mod Arp
pub mod Queue
pub mod Frames
pub mod Headers
pub mod Sockets
pub mod Setup
pub mod Main
pub mod Program
mod Tests
