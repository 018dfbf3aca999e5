-- ===== src/Bench/Stats/Laws.antt =====
-- Progress reports, latencies and merged statistics.
use mss_kv_lab.Base.{
  ℕ, zero, suc, ◌+◌, ◌%◌, ◌^◌, ◌≤◌, ◌<◌, ◌≡◌, refl, Bool, true, false, List, [], ◌∷◌, arith,
}
use mss_kv_lab.Base.Int.{ℤ, sub_ℕ}
use mss_kv_lab.Util.Histogram
use mss_kv_lab.Util.Histogram.Merge.{add_all}
use mss_kv_lab.Bench.Stats.{Stats, start, finished_single_op}

-- `n` operations, the i-th finished at `clock i`.
unfoldable pub finished_ops : Bool → (ℕ → ℕ) → ℕ → ℕ → Stats → Stats
finished_ops flag clock zero i s = s
finished_ops flag clock (suc n) i s =
    finished_ops flag clock n (i + 1) (finished_single_op flag (clock i) s)

-- The next report is ahead, and not by more than its step.
pub record IsTracking (s : Stats) : Type 0 where
  pub ahead : s.ops_done < s.next_report
  pub near : s.next_report ≤ s.ops_done + 100000
  pub rounded : s.next_report % 100 ≡ 0

pub finished-IsTracking :
    (flag : Bool) (now : ℕ) (s : Stats)
    → s.ops_done + 200000 < 2 ^ 31
    → IsTracking s
    → IsTracking (finished_single_op flag now s)
unfolding finished_single_op
finished-IsTracking flag now s small t = record {
  ahead = ground arith;
  near = ground arith;
  rounded = ground arith;
}

start-IsTracking : (now : ℕ) (s : Stats) → IsTracking (start now s)
unfolding start
start-IsTracking now s = omega arith

-- The time from the reading `last` to the first operation, and from each operation to the next.
unfoldable pub latencies : ℕ → (ℕ → ℕ) → ℕ → ℕ → List ℤ
latencies last clock zero i = []
latencies last clock (suc n) i = sub_ℕ (clock i) last ∷ latencies (clock i) clock n (i + 1)

pub bytes-finished_ops :
    (flag : Bool) (clock : ℕ → ℕ) (n i : ℕ) (s : Stats)
    → (finished_ops flag clock n i s).bytes ≡ s.bytes
unfolding finished_ops finished_single_op
bytes-finished_ops flag clock zero i s = refl
bytes-finished_ops true clock (suc n) i s = bytes-finished_ops true clock n (i + 1) _
bytes-finished_ops false clock (suc n) i s = bytes-finished_ops false clock n (i + 1) _

pub message-finished_ops :
    (flag : Bool) (clock : ℕ → ℕ) (n i : ℕ) (s : Stats)
    → (finished_ops flag clock n i s).message ≡ s.message
unfolding finished_ops finished_single_op
message-finished_ops flag clock zero i s = refl
message-finished_ops true clock (suc n) i s = message-finished_ops true clock n (i + 1) _
message-finished_ops false clock (suc n) i s = message-finished_ops false clock n (i + 1) _

pub done-finished_ops :
    (flag : Bool) (clock : ℕ → ℕ) (n i : ℕ) (s : Stats)
    → (finished_ops flag clock n i s).ops_done ≡ s.ops_done + n
unfolding finished_ops finished_single_op
done-finished_ops flag clock zero i s = omega arith
done-finished_ops true clock (suc n) i s = omega (arith, done-finished_ops true clock n (i + 1) _)
done-finished_ops false clock (suc n) i s = omega (arith, done-finished_ops false clock n (i + 1) _)

IsTracking-finished_ops :
    (flag : Bool) (clock : ℕ → ℕ) (n i : ℕ) (s : Stats)
    → s.ops_done + n + 200000 ≤ 2 ^ 31
    → IsTracking s
    → IsTracking (finished_ops flag clock n i s)
unfolding finished_ops
IsTracking-finished_ops flag clock zero i s small t = t
IsTracking-finished_ops flag clock (suc n) i s small t =
    IsTracking-finished_ops flag clock n (i + 1) (finished_single_op flag (clock i) s)
      (omega (arith, done-finished_ops flag clock 1 i s))
      (finished-IsTracking flag (clock i) s (omega arith) t)

hist-finished_ops :
    (clock : ℕ → ℕ) (n i : ℕ) (s : Stats)
    → (finished_ops true clock n i s).hist ≡ add_all s.hist (latencies s.last_op_finish clock n i)
unfolding finished_ops finished_single_op latencies add_all
hist-finished_ops clock zero i s = refl
hist-finished_ops clock (suc n) i s =
    hist-finished_ops clock n (i + 1) (finished_single_op true (clock i) s)

-- After `Start` and `n` operations, n at most 2147283648, `done_` is n and the next progress report
-- is due at a later multiple of 100, at most 100000 operations on, whether or not latencies are
-- recorded; no addition to `next_report_` overflowed.
pub progress_lem :
    (flag : Bool) (clock : ℕ → ℕ) (n t : ℕ) (s : Stats)
    → n + 200000 ≤ 2 ^ 31
    → ((finished_ops flag clock n 0 (start t s)).ops_done ≡ n)
      × IsTracking (finished_ops flag clock n 0 (start t s))
      × ((finished_ops flag clock n 0 (start t s)).next_report < 2 ^ 31)
unfolding start
progress_lem flag clock n t s small =
    let tracking =
      IsTracking-finished_ops flag clock n 0 (start t s) (omega arith) (start-IsTracking t s) in
    let all = done-finished_ops flag clock n 0 (start t s) in
    (omega (arith, all), tracking, omega (arith, all, tracking.near))

-- The histogram holds the time between consecutive operations, but the first sample is measured
-- from the start time that the object had before `Start` was called, not from the call's own.
pub first_latency_lem :
    (clock : ℕ → ℕ) (n t : ℕ) (s : Stats)
    → (finished_ops true clock (suc n) 0 (start t s)).hist
      ≡ add_all Histogram.clear (sub_ℕ (clock 0) s.begin ∷ latencies (clock 0) clock n 1)
unfolding start latencies
first_latency_lem clock n t s = hist-finished_ops clock (suc n) 0 (start t s)
