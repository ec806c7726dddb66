-- ===== src/Master.antt =====
-- master/src: the scheduler of queries over workers.
pub mod Commons
pub mod State
pub mod Queries
pub mod Dispatch
pub mod Invariant
pub mod Ordering
pub mod Aging
mod Tests
pub mod Arrivals
