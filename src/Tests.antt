-- ===== src/Tests.antt =====
-- Runs of the operations on concrete inputs.
mod Steps
mod Session
mod Follow
mod Files
mod Wire
mod Sorted
mod Positions
mod List
mod Pool
mod Names
mod Table
mod Known
mod Views
mod Replies
mod Lines
