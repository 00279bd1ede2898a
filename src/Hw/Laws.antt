-- ===== src/Hw/Laws.antt =====
-- What the claims promise: lib/ESPRack/src/hw/HwClaims.cpp, HwRegistry.cpp.
pub mod Clash
pub mod Lists
pub mod Exclusion
pub mod Held
pub mod Release
pub mod Stay
pub mod Kept
pub mod Answers
pub mod Board
