-- ===== src/VirtualMemory.antt =====
-- Assignment6/vm_assignment: a page table and the page-fault handlers of a demand-paged memory.
pub mod PageTable
pub mod Handler
pub mod Replacement
pub mod Service
pub mod Access
pub mod Disk
pub mod Runs
pub mod SecondChance
pub mod Comparison
pub mod Fifo
mod Tests
