-- ===== src/FsQueue.antt =====
-- The file manager's write queue, `FsWriteQueue` of modules/filesystem/include/FsWriteQueue.h:
-- `Types` its data and what it asks of its Io, `Step` one bounded write, `Queue` the slots and the
-- calls.
pub mod Types
pub mod Step
pub mod Slots
pub mod Queue
pub mod Run
pub mod Laws
mod Tests
