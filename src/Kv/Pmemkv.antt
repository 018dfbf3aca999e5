-- ===== src/Kv/Pmemkv.antt =====
-- src/pmemkv.c: PMKV over the C binding of libpmemkv, whose functions are a parameter.
pub mod Refine
pub mod Opening
mod Tests
pub mod RamLib
use mss_kv_lab.Base.{ℕ, Bytes, codes, Bool, Option, none, some, ◌==◌, if◌then◌else◌}
use mss_kv_lab.Base.Result.{Result, done, fault, assert_failed, ◌>>=◌}
use mss_kv_lab.Kv.{Pmkv, max_val_len}

-- The functions of libpmemkv.h that the file calls. `Files` is what lies on the disk, `Config` and
-- `Db` what the library's pointers lead to. `PMEMKV_STATUS_OK` is 0 by the library's headers.
pub record Libpmemkv : Type 1 where
  pub Files : Type 0
  pub Config : Type 0
  pub Db : Type 0
  pub pmemkv_config_new : Option Config
  pub pmemkv_config_put_string : Config → Bytes → Bytes → ℕ × Config
  pub pmemkv_config_put_uint64 : Config → Bytes → ℕ → ℕ × Config
  pub pmemkv_open : Bytes → Config → Files → ℕ × Option Db × Files
  pub pmemkv_close : Db → Files → Files
  pub pmemkv_get_copy : Db → Bytes → ℕ → ℕ × Bytes
  pub pmemkv_put : Db → Bytes → Bytes → ℕ × Db
  pub pmemkv_remove : Db → Bytes → ℕ × Db
  pub pmemkv_count_all : Db → ℕ × ℕ
  pub pmemkv_exists : Db → Bytes → ℕ

abbrev pub status_ok : ℕ
status_ok = 0

module _ (lib : Libpmemkv) where
  open lib use {Files, Config, Db}

  -- `assert(cfg != NULL)`
  assert_config : Option Config → Result Config
  assert_config none = fault assert_failed
  assert_config (some cfg) = done cfg

  -- `assert(s == PMEMKV_STATUS_OK)` after a call that updates the configuration
  assert_ok : ℕ × Config → Result Config
  assert_ok (s, cfg) = if s == status_ok then done cfg else fault assert_failed

  -- `if (s != PMEMKV_STATUS_OK) db = NULL;`
  opened_db : ℕ × Option Db × Files → Option Db × Files
  opened_db (s, db, w) = if s == status_ok then (db, w) else (none, w)

  unfoldable pub pmkv_open : Bytes → ℕ → ℕ → Files → Result (Option Db × Files)
  unfolding assert_config assert_ok opened_db
  pmkv_open path pool_size force_create w = do
    cfg0 ← assert_config lib.pmemkv_config_new
    cfg1 ← assert_ok (lib.pmemkv_config_put_string cfg0 (codes "path") path)
    cfg2 ← assert_ok (lib.pmemkv_config_put_uint64 cfg1 (codes "size") pool_size)
    cfg3 ← assert_ok (lib.pmemkv_config_put_uint64 cfg2 (codes "force_create") force_create)
    done (opened_db (lib.pmemkv_open (codes "cmap") cfg3 w))

  unfoldable pub pmkv_close : Db → Files → Files
  pmkv_close kv w = lib.pmemkv_close kv w

  unfoldable pub pmkv_get : Db → Bytes → ℕ × Bytes
  pmkv_get kv key = lib.pmemkv_get_copy kv key max_val_len

  unfoldable pub pmkv_put : Db → Bytes → Bytes → ℕ × Db
  pmkv_put kv key val = lib.pmemkv_put kv key val

  unfoldable pub pmkv_delete : Db → Bytes → ℕ × Db
  pmkv_delete kv key = lib.pmemkv_remove kv key

  unfoldable pub pmkv_count_all : Db → ℕ × ℕ
  pmkv_count_all kv = lib.pmemkv_count_all kv

  unfoldable pub pmkv_exists : Db → Bytes → ℕ
  pmkv_exists kv key = let s = lib.pmemkv_exists kv key in if s == status_ok then 1 else 0

  abbrev pub adapter : Pmkv
  adapter = record {
    World = Files;
    Store = Db;
    pmkv_open = pmkv_open;
    pmkv_close = pmkv_close;
    pmkv_get = pmkv_get;
    pmkv_put = pmkv_put;
    pmkv_delete = pmkv_delete;
    pmkv_count_all = pmkv_count_all;
    pmkv_exists = pmkv_exists;
  }
