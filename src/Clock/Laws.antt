-- ===== src/Clock/Laws.antt =====
-- What lib/ESPRack/src/time/TimeArbiter.cpp promises of the clock.
pub mod Validity
pub mod Authority
pub mod Samples
pub mod Ranks
pub mod Jumps
