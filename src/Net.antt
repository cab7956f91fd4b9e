-- ===== src/Net.antt =====
-- The network stack: its buffers.
pub mod Netbuf
