-- ===== src/Ota.antt =====
-- Firmware images: `Update` is lib/ESPRack/src/system/FirmwareUpdate.cpp, `Types` and `Writer`
-- are lib/ESPRack/include/system/OtaWriter.h and src/system/OtaWriter.cpp.
pub mod Update
pub mod Types
pub mod Writer
pub mod Calls
pub mod Laws
mod Tests
