-- ===== src/Gate/Decide.antt =====
-- lib/ESPRack/src/power/WriteGateCore.cpp: who may write when.
mod Pauses
mod Ask
unfoldable pub use Pauses.*
unfoldable pub use Ask.*
