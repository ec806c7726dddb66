-- ===== src/Worker.antt =====
-- worker/src: the execution of a query against its paged memory.
pub mod PageTable
pub mod Decode
pub mod Memory
mod Tests
