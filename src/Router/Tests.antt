-- ===== src/Router/Tests.antt =====
-- A router with two routes, a queue over a bump allocator, and the packets of one exchange: a packet
-- for an unknown neighbour, and the neighbour's ARP reply.
mod Data
mod Setup
mod Program
mod Neighbours
mod Runs
mod Witnesses
