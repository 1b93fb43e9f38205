-- ===== src/FileSystem.antt =====
-- Assignment7/lab7/: the file system of `library/fs.cpp` on the disk emulator of `library/disk.cpp`.
pub mod Block
pub mod Layout
pub mod Emulator
pub mod State
pub mod Format
pub mod Operations
pub mod Transfer
pub mod Writing
pub mod Debug
pub mod Table
pub mod Creation
pub mod Removal
pub mod Formatting
pub mod Mounting
pub mod Reading
pub mod ReadFile
pub mod Allocation
pub mod Samples
pub mod Tests
pub mod Owning
pub mod WriteRound
pub mod WriteLoop
pub mod WriteEnd
pub mod WriteSettle
pub mod WriteFile
pub mod ReadBack
pub mod Commands
pub mod Console
pub mod CopyBack
pub mod Consistency
pub mod Calls
pub mod Emptied
pub mod Same
pub mod Sequences
pub mod SequenceTests
