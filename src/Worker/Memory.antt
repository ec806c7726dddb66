-- ===== src/Worker/Memory.antt =====
-- worker/src/memory/memory_manager.c: the paged memory of a worker.
pub mod State
pub mod View
pub mod Tables
pub mod Frames
pub mod Lru
pub mod Clock
pub mod Access
pub mod Flush
pub mod Outcomes
pub mod Contents
pub mod Local
pub mod Bytes
pub mod Replace
pub mod Keeps
pub mod Steps
pub mod Evict
pub mod Choice
pub mod Held
pub mod Ring
pub mod Rounds
pub mod Allocate
pub mod Load
pub mod Extend
pub mod Fault
pub mod Round
pub mod Written
pub mod Loop
pub mod Reading
pub mod Refinement
pub mod Create
pub mod Stuck
pub mod Passes
pub mod Marks
pub mod Names
pub mod Grown
pub mod Opening
pub mod Flushed
mod Tests
