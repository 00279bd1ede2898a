-- ===== src/Gate/Laws.antt =====
-- What lib/ESPRack/src/power/WriteGateCore.cpp promises the writers and the holders.
pub mod Exclusion
pub mod Progress
pub mod Queue
pub mod Windows
