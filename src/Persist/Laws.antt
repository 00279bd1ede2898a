-- ===== src/Persist/Laws.antt =====
-- What is proved of the persistence code.
pub mod Crc
pub mod Bytes
pub mod Header
pub mod Blob
pub mod Damage
pub mod Record
pub mod Faults
pub mod Scratch
pub mod Policy
