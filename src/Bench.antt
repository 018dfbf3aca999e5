-- ===== src/Bench.antt =====
-- bench/bench.cc: the benchmark of a PMKV library.
pub mod Wrapper
pub mod Keys
pub mod Stats
pub mod Workload
pub mod Threads
pub mod Generator
pub mod Mixed
pub mod Writer
pub mod Run
pub mod Flags
pub mod Environment
pub mod Parallel
