-- ===== src/Bench/Mixed/Stall.antt =====
-- What `ReadRandomWriteRandom` does with a percentage above a hundred.
use mss_kv_lab.Base.{ℕ, ◌+◌, ◌-◌, ◌<◌, min, ◌≡◌, length, Bytes}
use mss_kv_lab.Base.Int.{pos, negsuc}
use mss_kv_lab.Kv.{Pmkv}
use mss_kv_lab.Util.Random.{Random}
use mss_kv_lab.Bench.Mixed.Draws.{draws, drawn_key}
use mss_kv_lab.Bench.Stats
use mss_kv_lab.Bench.Workload.{Config}
use mss_kv_lab.Bench.Mixed.{Mixed, Weights}

abbrev drained : ℕ → ℕ → Weights
drained g k = record { get_weight = pos g; put_weight = negsuc k }

-- The weights after i rounds: the reads of the first batch are used up one by one, and the second
-- weight, negative from the start, is never used.
data Draining (p : ℕ) : ℕ → Weights → Type 0 where
  fresh : (v : Weights) → v ≡ record { get_weight = pos 0; put_weight = pos 0 } → Draining p 0 v
  open_batch : (i : ℕ) (v : Weights) → v ≡ drained (p - i) (p - 101) → Draining p i v

module _ (kv : Pmkv) (cfg : Config) (p : ℕ) (text : ℕ → ℕ → ℕ → ℕ → Bytes) (readwrites : ℕ)
    (over : 100 < p) (base : ℕ) (store : kv.Store) (rand : Random) where
  -- The state after i rounds, but for the clock.
  record Drained (i : ℕ) (s : Mixed kv) : Type 0 where
    pub weights : Draining p i s.weights
    pub reads_are : s.reads_done ≡ min i p
    pub writes_are : s.writes_done ≡ 0
    pub ops : s.worker.stats.ops_done ≡ base + min i p
    pub same_store : s.worker.store ≡ store
    pub drawn : s.worker.rand ≡ draws i rand
    pub room : length s.worker.key ≡ cfg.key_size
    pub key : (k : ℕ) → k + 1 ≡ i → s.worker.key ≡ drawn_key cfg rand k
