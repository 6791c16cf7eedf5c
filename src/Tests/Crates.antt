-- ===== src/Tests/Crates.antt =====
-- Concrete values of the parameters that stand for third-party crates.
pub mod Varint
pub mod Text
pub mod Wire
pub mod Reader
pub mod Mac
