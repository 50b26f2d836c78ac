-- ===== src/Network.antt =====
-- src/network/: the connection of a client, and the server with its pool of workers.
pub mod Channel
pub mod Connection
pub mod Server
pub mod Handling
