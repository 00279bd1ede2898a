-- ===== src/Hw.antt =====
-- The hardware registry: the board's facts, claims on resources and the rules between them
-- (lib/ESPRack/src/hw/HwClaims.cpp), and one instance's evaluation (HwRegistry.cpp).
mod Types
mod Claims
mod Board
mod Check
mod Registry
mod Tests
pub mod Laws
unfoldable pub use Types.*
unfoldable pub use Claims.*
unfoldable pub use Board.*
unfoldable pub use Check.*
unfoldable pub use Registry.*
