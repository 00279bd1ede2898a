-- ===== src/Persist.antt =====
-- What is kept over a restart: lib/ESPRack/{include,src}/persist. `Crc` is Crc32.cpp, `Blob` the
-- codec of NvsBlob.cpp, `Record` NvsRecord.h over NvsIo.cpp, `Scratch` RtcScratch.h and `Policy`
-- CheckpointPolicy.h.
pub mod Crc
pub mod Blob
pub mod Record
pub mod Scratch
pub mod Policy
pub mod Laws
mod Tests
