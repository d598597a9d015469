-- ===== src/Common.antt =====
-- The helpers under common/ that have no state of their own.
pub mod Time
pub mod Rng
pub mod Crc32
pub mod Misc
pub mod Bytes
pub mod Decimal
pub mod Fingerprint
pub mod Bits
pub mod XorLaws
pub mod CrcReference
mod Runs
