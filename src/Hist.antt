-- ===== src/Hist.antt =====
-- The history store's file format and retention: lib/ESPRack/src/history/HistCore.cpp. `Segment` is
-- the header and the records of a segment file, `Retain` which segments are deleted. What works on
-- floating-point values is left out.
pub mod Segment
pub mod Retain
pub mod Laws
mod Tests
