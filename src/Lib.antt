-- ===== src/Lib.antt =====
-- MSS-KV-lab is a laboratory for persistent-memory key-value stores: a C interface for a store
-- (include/pmkv.h), a skeleton of it to fill in (src/pmkv.c), a reference implementation over the
-- library pmemkv (src/pmemkv.c), and a benchmark (bench/bench.cc) that drives any implementation
-- from several threads and reports speeds and latencies. Six small programs (example/) introduce
-- libpmemobj. This development models the interface, its two implementations, the benchmark and the
-- introductory programs.
--
-- How the parts interact. A workload of the benchmark runs in one thread: it draws a number, makes a
-- key of it, calls the wrapper class around the C interface, and counts the operation in the
-- thread's statistics, which hold a histogram of latencies. `RunBenchmark` starts the threads and
-- waits for them at a mutex and a condition variable; between its barriers the threads' calls of the
-- one store follow one another in any order. `Run` opens the store and calls `RunBenchmark` for each
-- name of a list.
--
-- Which file models which part:
--   Base and its children: tests, lists, byte strings, integers and results; no code.
--   Kv.antt: include/pmkv.h, as a record `Pmkv` of functions. A store is a value that is passed
--     and returned, and an out-pointer is a component of the result.
--   Kv/Contract.antt: what README.md asks of an implementation, as a predicate `IsMap`: a finite
--     map with a count of its entries.
--     README.md names 1 as the status of a failure; the adapter returns other codes too, and no
--     client tells them apart, so `IsMap` asks for a status that is not 0.
--   Kv/Stub.antt: src/pmkv.c. Kv/Pmemkv.antt: src/pmemkv.c over a parameter `Libpmemkv` for the
--     library, and Kv/Pmemkv/Refine.antt and Opening.antt: the library's documentation, as hypotheses.
--   Kv/Ram.antt, Kv/Pmemkv/RamLib.antt: stores in memory on which the witnesses run; no code.
--   Util/Random.antt: bench/util/random.h. Util/Histogram.antt: bench/util/histogram.cc,
--     with its two sums rounded as doubles are, Percentile and Median in its child
--     Percentile, with a rounded threshold and exact fractions after it, and the figures of
--     ToString in Report.
--   Bench/Wrapper.antt: class `PMKVWrapper` of bench/bench.cc. An exception is a `fault`, and so is
--     behaviour that is undefined. bench/Makefile defines `NDEBUG`: the benchmark has no assertions.
--   Bench/Keys.antt: `GenerateKeyFromInt` and the numbers that keys are made of, with the
--     wrap-around of `int` and its conversion to `uint64_t`.
--   Bench/Stats.antt: class `Stats` and `AppendWithSpace`.
--   Bench/Workload.antt: `DoWrite`, `DoRead`, `DoDelete` and the methods over them; a `Worker` is
--     the store with the thread's generator, statistics, key buffer and local counters.
--   Util/RandomData.antt: bench/util/testutil.cc. Bench/Generator.antt: class `RandomGenerator`.
--   Bench/Mixed.antt: class `Duration` and `ReadRandomWriteRandom`.
--   Bench/Writer.antt: `BGWriter` and `ReadWhileWriting`; what the test to stop finds is an input.
--   Bench/Run.antt: `Run` and `Open`, with the list of benchmarks; what a benchmark's threads do to
--     the store is a parameter, which Bench/Parallel.antt fills for the simple workloads.
--   Bench/Flags.antt: the flags, `main` up to the run, with `sscanf` as a parameter, and
--     what the constructor of `Benchmark` takes from the flags.
--   Bench/Environment.antt: `TrimSpace` and what `PrintEnvironment` reads of /proc/cpuinfo.
--   Bench/Parallel.antt: `RunBenchmark` and `ThreadBody` for the simple workloads, with n threads on
--     one store: `turn` is one round of one thread's loop, `run_turns` a schedule of them, and
--     `run_benchmark` fills the parameter of Bench/Run.antt. Bench/Parallel/Barriers.antt puts the
--     rounds and the steps of Bench/Threads.antt together in one step relation.
--   Bench/Threads.antt: `RunBenchmark` and `ThreadBody` as a step relation. A step is what a
--     thread does from one release of the mutex to the next; a wake-up without a signal is a step
--     of its own kind, which no liveness statement uses.
--   Example/Session.antt: what the programs of example/ share, from `argc` to `pmemobj_check`, over a
--     parameter `Pools`. A program is a function of its process (Example/Program.antt).
--   Example/Alloc.antt: create_pool.c and declare_toid.c need no more; alloc_root_object.c,
--     alloc_by_toid.c and alloc_by_pmemoid.c, over a parameter `Objects`.
--   Example/LinkedList.antt: example/linked_list.c over a parameter `Transactions`; the transaction
--     and the scan are in its child Append, and what libpmemobj documents in Documented.
--   Example/Ram.antt: a libpmemobj in memory on which the witnesses run; no code.
--   Every `Tests.antt` holds runs on concrete inputs and applications of the theorems.
--
-- Bounds. A loop of the source that counts up to a bound is recursion on the rounds that are left,
-- so no fuel is needed, but for six loops: those of `CompressibleString` and of the generator's
-- constructor take as much fuel as characters are wanted, the scan of example/linked_list.c takes
-- one more than there are elements, that of `Run` a round more than the list has characters, that
-- of `ReadRandomWriteRandom` a round more than it has operations, and that of `BGWriter` a round
-- more than its test lets it run, each shown to be enough. The counters `bytes` are taken modulo
-- 2^64, the key numbers modulo 2^32 and the generator's product modulo 2^64; `next_report_` is kept as
-- its 32 bits; the counts of operations and of threads are not bounded (the bounds of the loops are
-- of type int). Flags that the program takes as `int` are integers
-- where they are parsed; the workloads take them as numbers, so negative settings are left aside
-- there, but for the percentage of reads.
--
-- What is not modelled: the copy of LevelDB's environment and port layer under bench/ (the clock
-- and the texts of `snprintf` are parameters), printing, the rest of the arithmetic on doubles that
-- only serves output, and its rounding (latencies are whole microseconds, below 2^53), the Python scripts, the
-- build files, the test programs and, of bench/bench.cc, what only prints. For the simple workloads
-- the calls of several threads are interleaved in any order, but one call is one step: that calls
-- do not disturb each other is a matter of the implementation. `BGWriter` and
-- `ReadRandomWriteRandom` work on the store alone. A thread that throws ends the whole program, so
-- a run with a refused put has no store as its result.
pub mod Base
pub mod Kv
pub mod Util
pub mod Bench
pub mod Example
