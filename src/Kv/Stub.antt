-- ===== src/Kv/Stub.antt =====
-- src/pmkv.c: the skeleton that is to be filled in. Every function returns a constant.
use mss_kv_lab.Base.{ℕ, Bytes, Option, none}
use mss_kv_lab.Base.Result.{Result, done}
use mss_kv_lab.Kv.{Pmkv}

-- A handle points to a `pmkv`, an empty struct; the skeleton never makes one.
pub record Handle : Type 0 where

unfoldable pub pmkv_open {ℓ} : {W : Type ℓ} → Bytes → ℕ → ℕ → W → Result (Option Handle × W)
pmkv_open path pool_size force_create w = done (none, w)

unfoldable pub pmkv_close {ℓ} : {W : Type ℓ} → Handle → W → W
pmkv_close kv w = w

-- `out_val` and `out_val_size` are not written: what they hold is `junk`.
unfoldable pub pmkv_get : Bytes → Handle → Bytes → ℕ × Bytes
pmkv_get junk kv key = (1, junk)

unfoldable pub pmkv_put : Handle → Bytes → Bytes → ℕ × Handle
pmkv_put kv key val = (1, kv)

unfoldable pub pmkv_delete : Handle → Bytes → ℕ × Handle
pmkv_delete kv key = (1, kv)

unfoldable pub pmkv_count_all : ℕ → Handle → ℕ × ℕ
pmkv_count_all junk kv = (1, junk)

unfoldable pub pmkv_exists : Handle → Bytes → ℕ
pmkv_exists kv key = 0

abbrev pub stub : ℕ → Bytes → Pmkv
stub n junk = record {
  World = Unit {0};
  Store = Handle;
  pmkv_open = pmkv_open;
  pmkv_close = pmkv_close;
  pmkv_get = pmkv_get junk;
  pmkv_put = pmkv_put;
  pmkv_delete = pmkv_delete;
  pmkv_count_all = pmkv_count_all n;
  pmkv_exists = pmkv_exists;
}
