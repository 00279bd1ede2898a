-- ===== src/Clock.antt =====
-- lib/ESPRack/include/time/TimeArbiter.h and lib/ESPRack/src/time/TimeArbiter.cpp: which source may
-- set the clock. One function for each method; the object's new value stands behind a result.
-- uint64_t products wrap at 2 ^ 64; int64_t values are integers, exact where they stay in range (out
-- of range the C++ is undefined), and a uint64_t is read as an int64_t unchanged (below 2 ^ 63).
mod Tests
pub mod Laws
mod Types
mod State
mod Submit
pub use Types.*
unfoldable pub use State.*
unfoldable pub use Submit.*
