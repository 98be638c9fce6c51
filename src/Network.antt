-- ===== src/Network.antt =====
-- network/: the sockets.
pub mod Socket
