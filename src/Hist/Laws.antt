-- ===== src/Hist/Laws.antt =====
-- What the functions of HistCore.cpp keep to: reading back a segment, and retention.
pub mod Header
pub mod Records
pub mod Count
pub mod Retain
pub mod Cap
