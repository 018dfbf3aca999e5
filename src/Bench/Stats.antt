-- ===== src/Bench/Stats.antt =====
-- `Stats` and `AppendWithSpace` of bench/bench.cc. The clock's reading, `g_env->NowMicros()`, is an
-- argument, and a time is a number of microseconds; the lines that are printed are left aside.
pub mod Laws
mod Tests
use mss_kv_lab.Base.{
  ℕ, ◌+◌, ◌%◌, ◌^◌, Bool, true, false, List, [], ◌∷◌, ◌++◌, Bytes, ltb, leb, ◌||◌, ◌&&◌, not,
  if◌then◌else◌,
}
use mss_kv_lab.Base.Int.{ℤ, pos, sub_ℕ, ◌+ℤ◌}
use mss_kv_lab.Util.Histogram
use mss_kv_lab.Util.Histogram.{Histogram}

unfoldable pub append_with_space : Bytes → Bytes → Bytes
append_with_space [] [] = []
append_with_space (c ∷ str) [] = c ∷ str
append_with_space [] (m ∷ msg) = m ∷ msg
append_with_space (c ∷ str) (m ∷ msg) = (c ∷ str) ++ (b' ' ∷ m ∷ msg)

pub record Stats : Type 0 where
  pub begin : ℕ  -- `start_`
  pub finish : ℕ
  pub elapsed : ℤ  -- `seconds_`, in microseconds
  pub ops_done : ℕ  -- `done_`, an int; no loop counts beyond one
  pub next_report : ℕ  -- the 32 bits of the int
  pub bytes : ℕ  -- int64_t
  pub last_op_finish : ℕ
  pub hist : Histogram
  pub message : Bytes
  pub exclude_from_merge : Bool

-- `Start`. `last_op_finish_ = start_` stands before the assignment of `start_`.
unfoldable pub start : ℕ → Stats → Stats
start now s = record {
  begin = now;
  finish = now;
  elapsed = pos 0;
  ops_done = 0;
  next_report = 100;
  bytes = 0;
  last_op_finish = s.begin;
  hist = Histogram.clear;
  message = [];
  exclude_from_merge = false;
}

-- `Merge`
unfoldable pub merge : Stats → Stats → Stats
merge s other = if other.exclude_from_merge then s else record s {
  hist = Histogram.merge s.hist other.hist;
  ops_done = s.ops_done + other.ops_done;
  bytes = (s.bytes + other.bytes) % 2 ^ 64;
  elapsed = s.elapsed +ℤ other.elapsed;
  begin = if ltb other.begin s.begin then other.begin else s.begin;
  finish = if ltb s.finish other.finish then other.finish else s.finish;
  message = first_message s.message other.message;
}
  where
    first_message : Bytes → Bytes → Bytes
    first_message [] theirs = theirs
    first_message (c ∷ ours) theirs = c ∷ ours

-- `Stop`
unfoldable pub stop : ℕ → Stats → Stats
stop now s = record s { finish = now; elapsed = sub_ℕ now s.begin }

-- `AddMessage`
unfoldable pub add_message : Bytes → Stats → Stats
add_message msg s = record s { message = append_with_space s.message msg }

-- `SetExcludeFromMerge`
unfoldable pub set_exclude_from_merge : Stats → Stats
set_exclude_from_merge s = record s { exclude_from_merge = true }

-- `next_report_` is an int, kept here as its 32 bits, and an overflow wraps.
abbrev pub is_negative : ℕ → Bool
is_negative n = leb (2 ^ 31) n

-- The ladder of `FinishedSingleOp`.
abbrev pub next_step : ℕ → ℕ
next_step n =
    if is_negative n || ltb n 1000
    then 100
    else if ltb n 5000
    then 500
    else if ltb n 10000
    then 1000
    else if ltb n 50000
    then 5000
    else if ltb n 100000
    then 10000
    else if ltb n 500000
    then 50000
    else 100000

-- `if (FLAGS_histogram) { … }`
abbrev pub record_latency : Bool → ℕ → Stats → Stats
record_latency flags_histogram now s =
    if flags_histogram
    then record s { hist = Histogram.add s.hist (sub_ℕ now s.last_op_finish); last_op_finish = now }
    else s

-- `FinishedSingleOp`
unfoldable pub finished_single_op : Bool → ℕ → Stats → Stats
finished_single_op flags_histogram now s0 =
    let s = record_latency flags_histogram now s0 in
    let ops_done = s.ops_done + 1 in
    record s {
      ops_done = ops_done;
      next_report =
          if not (is_negative s.next_report) && ltb ops_done s.next_report
          then s.next_report
          else (s.next_report + next_step s.next_report) % 2 ^ 32;
    }

-- `AddBytes`
unfoldable pub add_bytes : ℕ → Stats → Stats
add_bytes n s = record s { bytes = (s.bytes + n) % 2 ^ 64 }

-- What `Report` changes: a workload that counted no operation counts as one.
unfoldable pub report : Stats → Stats
report s = record s { ops_done = if ltb s.ops_done 1 then 1 else s.ops_done }
