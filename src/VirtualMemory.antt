-- ===== src/VirtualMemory.antt =====
-- 05. Virtual Memory: pages, frames, the disk and the page fault handler.
pub mod Memory
pub mod PageTable
pub mod Handler
pub mod View
pub mod Access
pub mod Start
mod Tests
