-- ===== src/Kv.antt =====
-- include/pmkv.h: the functions of a PMKV library, as an interface that its clients take.
pub mod Contract
pub mod Stub
pub mod Pmemkv
pub mod Ram
use mss_kv_lab.Base.{ℕ, Bytes, Option}
use mss_kv_lab.Base.Result.{Result}

-- `MAX_VAL_LEN`
abbrev pub max_val_len : ℕ
max_val_len = 1048576

-- `World` is all that lies outside the process (the pool files), and `Store` what a handle that is
-- not NULL points to. A key or a value is passed as a pointer and a size, hence as its bytes; a
-- result is the C return value, beside what the call writes through its out-pointers and the store
-- after the call.
pub record Pmkv : Type 1 where
  pub World : Type 0
  pub Store : Type 0
  pub pmkv_open : Bytes → ℕ → ℕ → World → Result (Option Store × World)
  pub pmkv_close : Store → World → World
  pub pmkv_get : Store → Bytes → ℕ × Bytes
  pub pmkv_put : Store → Bytes → Bytes → ℕ × Store
  pub pmkv_delete : Store → Bytes → ℕ × Store
  pub pmkv_count_all : Store → ℕ × ℕ
  pub pmkv_exists : Store → Bytes → ℕ
