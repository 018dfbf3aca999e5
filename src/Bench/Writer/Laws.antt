-- ===== src/Bench/Writer/Laws.antt =====
-- How `BGWriter` ends.
use mss_kv_lab.Base.{
  ℕ, ◌+◌, ◌*◌, ◌%◌, ◌^◌, ◌≤◌, ◌≡◌, Bool, some, Option, List, [], ◌∷◌, Bytes, bytes_eq,
  if◌then◌else◌, length,
}
use mss_kv_lab.Kv.{Pmkv}
use mss_kv_lab.Bench.Generator.Laws.{InRange}
use mss_kv_lab.Kv.Contract.{IsMap}
use mss_kv_lab.Util.Random.{Random}
use mss_kv_lab.Bench.Wrapper
use mss_kv_lab.Bench.Mixed.Draws.{draws, drawn_key}
use mss_kv_lab.Bench.Stats
use mss_kv_lab.Bench.Stats.{Stats}
use mss_kv_lab.Bench.Workload.{Config, Worker}
use mss_kv_lab.Bench.Writer.{Writer}

-- The value of the last of the rounds that wrote the key j; `vs` are the values of the rounds, the
-- last round's first.
pub last_value : Config → Random → List Bytes → Bytes → Option Bytes → Option Bytes
last_value cfg rand [] j old = old
last_value cfg rand (v ∷ vs) j old =
    if bytes_eq (drawn_key cfg rand (length vs)) j then some v else last_value cfg rand vs j old

abbrev pub AllLong : ℕ → List Bytes → Type 0
AllLong n [] = Unit
AllLong n (v ∷ vs) = (length v ≡ n) × AllLong n vs

-- What i rounds make of the entries that `before` had.
pub record Entries (kv : Pmkv) (map : IsMap kv) (cfg : Config) (rand : Random) (before : kv.Store)
    (i : ℕ) (after : kv.Store) : Type 0 where
  pub values : List Bytes
  pub rounds : length values ≡ i
  pub long : AllLong cfg.value_size values
  pub entries : (j : Bytes) → map.entry after j ≡ last_value cfg rand values j (map.entry before j)

module _ (kv : Pmkv) (map : IsMap kv) (cfg : Config) (stops : ℕ → Bool) (first : Worker kv) where
  -- The state after i rounds.
  record Wrote (i : ℕ) (s : Writer kv) : Type 0 where
    pub written : s.written ≡ i
    pub bytes : s.worker.bytes ≡ (i * (cfg.key_size + cfg.value_size)) % 2 ^ 64
    pub stats : s.worker.stats ≡ Stats.set_exclude_from_merge first.stats
    pub key : length s.worker.key ≡ cfg.key_size
    pub range : InRange s.gen
    pub room : cfg.value_size ≤ length s.gen.text
    pub drawn : s.worker.rand ≡ draws i first.rand
    pub stored : Entries kv map cfg first.rand first.store i s.worker.store
