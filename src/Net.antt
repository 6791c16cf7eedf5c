-- ===== src/Net.antt =====
-- src/net/mod.rs: IPv4 and ICMP packets, read from and written to bytes.
pub mod Cursor
pub mod Packet
