-- ===== src/Example.antt =====
-- example/: the programs that introduce libpmemobj. Each opens a pool, works on it, closes it and
-- checks it.
pub mod Program
pub mod Session
pub mod Alloc
pub mod LinkedList
pub mod Ram
mod Tests
