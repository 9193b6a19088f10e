-- ===== src/Broker.antt =====
-- The message broker of Tema_2: Map (the maps of the server), State (its data), Publish, Connect and
-- Command (the branches of the loop of server.cpp), Server (the loop),
-- Subscriber (subscriber.cpp), Link (what is typed at the client and reaches the server) and Start
-- (what stands before the two loops).
pub mod Map
pub mod State
pub mod Publish
pub mod Connect
pub mod Command
pub mod Server
pub mod Subscriber
pub mod Link
pub mod Start
mod Tests
