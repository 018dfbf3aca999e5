-- ===== src/Bench/Stats/Tests.antt =====
-- Statistics with a start time of their own before `Start` is called.
use mss_kv_lab.Base.{◌≡◌, refl, ◌+◌, ◌<◌, ◌^◌, ltb, [], true, false, arith}
use mss_kv_lab.Base.Int.{pos}
use mss_kv_lab.Util.Histogram
use mss_kv_lab.Bench.Stats.{Stats, start, finished_single_op}
use mss_kv_lab.Bench.Stats.Laws.{finished_ops, IsTracking, progress_lem}

abbrev stale : Stats
stale = record {
  begin = 3;
  finish = 0;
  elapsed = pos 0;
  ops_done = 0;
  next_report = 0;
  bytes = 0;
  last_op_finish = 0;
  hist = Histogram.clear;
  message = [];
  exclude_from_merge = false;
}

progress_lem_example :
    ((finished_ops true (λ i. 100 + i) 2 0 (start 50 stale)).ops_done ≡ 2)
    × IsTracking (finished_ops true (λ i. 100 + i) 2 0 (start 50 stale))
    × ((finished_ops true (λ i. 100 + i) 2 0 (start 50 stale)).next_report < 2 ^ 31)
progress_lem_example = progress_lem true (λ i. 100 + i) 2 50 stale (omega arith)

-- At 2147400000 operations the addition to `next_report_` overflows: the report that was due at
-- that number is followed by one at a negative number.
abbrev late : Stats
late = record stale { ops_done = 2147399999; next_report = 2147400000 }

overflowed : (finished_single_op false 0 late).next_report ≡ 2147500000
unfolding finished_single_op
overflowed = refl

negative : ltb 2147500000 (2 ^ 31) ≡ false
negative = refl
