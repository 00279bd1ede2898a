-- ===== src/Ota/Laws.antt =====
-- What is proved of the firmware writers.
pub mod Idle
pub mod Owners
pub mod Image
pub mod Whole
