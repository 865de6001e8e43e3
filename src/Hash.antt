-- ===== src/Hash.antt =====
-- The hash functions of src/hash: SipHash-2-4, xxHash-64 and the mapping of names to erasure sets.
pub mod Word
mod Bits
pub mod Stream
pub mod Sip
pub mod Xx
pub mod Laws
mod Tests
