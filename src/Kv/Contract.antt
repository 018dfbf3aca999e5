-- ===== src/Kv/Contract.antt =====
-- What README.md asks of an implementation of include/pmkv.h: a finite map from keys to values.
-- A status is "success" when it is 0. README.md asks for 1 otherwise; the adapter returns the codes
-- of pmemkv, the clients compare with 0 only, and here any other status is a failure.
use mss_kv_lab.Base.{ℕ, ◌+◌, ◌-◌, ◌≤◌, ◌≡◌, ◌≢◌, Bool, true, false, Option, none, some}
use mss_kv_lab.Base.{Bytes, bytes_eq, length, if◌then◌else◌}
use mss_kv_lab.Base.Result.{done}
use mss_kv_lab.Kv.{Pmkv, max_val_len}

abbrev pub is_some {ℓ} : {A : Type ℓ} → Option A → Bool
is_some none = false
is_some (some a) = true

pub record IsMap (kv : Pmkv) : Type 0 where
  pub entry : kv.Store → Bytes → Option Bytes
  pub count : kv.Store → ℕ
  pub open_create :
      (path : Bytes) (size : ℕ) (w w' : kv.World) (s : kv.Store)
      → kv.pmkv_open path size 1 w ≡ done (some s, w')
      → (count s ≡ 0) × ((k : Bytes) → entry s k ≡ none)
  pub get_found :
      (s : kv.Store) (k v : Bytes)
      → entry s k ≡ some v
      → length v ≤ max_val_len
      → kv.pmkv_get s k ≡ (0, v)
  pub get_missing : (s : kv.Store) (k : Bytes) → entry s k ≡ none → (kv.pmkv_get s k).0 ≢ 0
  pub put_entry :
      (s : kv.Store) (k v j : Bytes)
      → (kv.pmkv_put s k v).0 ≡ 0
      → entry (kv.pmkv_put s k v).1 j ≡ (if bytes_eq k j then some v else entry s j)
  pub put_count :
      (s : kv.Store) (k v : Bytes)
      → (kv.pmkv_put s k v).0 ≡ 0
      → count (kv.pmkv_put s k v).1 ≡ (if is_some (entry s k) then count s else count s + 1)
  pub put_failed :
      (s : kv.Store) (k v : Bytes)
      → (kv.pmkv_put s k v).0 ≢ 0
      → (count (kv.pmkv_put s k v).1 ≡ count s)
        × ((j : Bytes) → entry (kv.pmkv_put s k v).1 j ≡ entry s j)
  pub delete_found : (s : kv.Store) (k v : Bytes) → entry s k ≡ some v → (kv.pmkv_delete s k).0 ≡ 0
  pub delete_missing : (s : kv.Store) (k : Bytes) → entry s k ≡ none → (kv.pmkv_delete s k).0 ≢ 0
  pub delete_entry :
      (s : kv.Store) (k j : Bytes)
      → entry (kv.pmkv_delete s k).1 j ≡ (if bytes_eq k j then none else entry s j)
  pub delete_count :
      (s : kv.Store) (k : Bytes)
      → count (kv.pmkv_delete s k).1 ≡ (if is_some (entry s k) then count s - 1 else count s)
  pub count_all_lem : (s : kv.Store) → kv.pmkv_count_all s ≡ (0, count s)
  pub exists_lem :
      (s : kv.Store) (k : Bytes) → kv.pmkv_exists s k ≡ (if is_some (entry s k) then 1 else 0)
