-- ===== src/FsQueue/Laws.antt =====
-- What is proved of the write queue.
pub mod Step
pub mod Tree
pub mod Slots
pub mod Submit
pub mod Run
pub mod Status
