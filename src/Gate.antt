-- ===== src/Gate.antt =====
-- lib/ESPRack/include/power/WriteGateCore.h and lib/ESPRack/src/power/WriteGateCore.cpp: the write
-- gate on a clock that the caller passes in (uint32_t milliseconds that wrap), one function for each
-- method. A method that changes the object returns the new one behind its result. What
-- `PowerGuard::writesAllowed` answers is the argument `allowed`.
mod Tests
pub mod Inv
pub mod Laws
mod Types
mod Windows
mod Decide
pub use Types.*
unfoldable pub use Windows.*
unfoldable pub use Decide.*
