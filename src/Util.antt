-- ===== src/Util.antt =====
-- src/util: helpers of the broker, and what they use of the C library.
pub mod Tests
pub mod Decimal
pub mod Numbers
pub mod Hex
pub mod User
pub mod Misc
pub mod Sampler
