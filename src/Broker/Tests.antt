-- ===== src/Broker/Tests.antt =====
-- The broker of Tema_2 at concrete inputs: the data, the server, and the two programs together.
mod Data
mod Server
mod Link
