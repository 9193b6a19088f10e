-- ===== src/Web.antt =====
-- The web client of Tema_3: Buffer (the growing byte buffer and its searches), Requests (the HTTP
-- requests), Strings (cookies and tokens by strtok), Client (the commands), Transport (the
-- connection) and Program (main of client.c over its connections).
pub mod Buffer
pub mod Requests
pub mod Strings
pub mod Client
pub mod Transport
pub mod Program
mod Tests
