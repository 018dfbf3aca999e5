-- ===== src/Util.antt =====
-- bench/util: the parts of the benchmark's support code that its loops run.
pub mod Random
pub mod Histogram
pub mod RandomData
