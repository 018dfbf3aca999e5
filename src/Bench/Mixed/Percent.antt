-- ===== src/Bench/Mixed/Percent.antt =====
-- How `ReadRandomWriteRandom` ends, for a percentage up to a hundred.
use mss_kv_lab.Base.{ℕ, ◌+◌, ◌≤◌, ◌≡◌, refl, true, false, Bool, Bytes, length}
use mss_kv_lab.Kv.{Pmkv}
use mss_kv_lab.Bench.Generator.Laws.{InRange}
use mss_kv_lab.Bench.Stats
use mss_kv_lab.Bench.Stats.{Stats}
use mss_kv_lab.Bench.Workload.{Config}
use mss_kv_lab.Bench.Mixed.{Mixed}
use mss_kv_lab.Bench.Mixed.Split.{Batch}

pub op_counted :
    (flag : Bool) (now : ℕ) (s : Stats)
    → (Stats.finished_single_op flag now s).ops_done ≡ s.ops_done + 1
unfolding Stats.finished_single_op
op_counted true now s = refl
op_counted false now s = refl

module _ (kv : Pmkv) (cfg : Config) (p : ℕ) (text : ℕ → ℕ → ℕ → ℕ → Bytes) (readwrites : ℕ)
    (small : p ≤ 100) (base : ℕ) where
  -- The state after i rounds, but for the clock.
  record Ran (i : ℕ) (s : Mixed kv) : Type 0 where
    pub batch : Batch p s.weights s.reads_done s.writes_done
    pub total : s.reads_done + s.writes_done ≡ i
    pub ops : s.worker.stats.ops_done ≡ base + i
    pub range : InRange s.gen
    pub room : cfg.value_size ≤ length s.gen.text
