-- ===== src/Kv/Pmemkv/Refine.antt =====
-- What libpmemkv documents of its calls, and what src/pmemkv.c then promises.
use mss_kv_lab.Base.{ℕ, ◌+◌, ◌-◌, ◌≤◌, ◌<◌, ◌≡◌, ◌≢◌, ap, sym, ◌∙◌, Option, none, some, inl, inr}
use mss_kv_lab.Base.{Bytes, bytes_eq, codes, length, Option-cases, if◌then◌else◌, arith}
use mss_kv_lab.Base.Result.{done, Result, >>=-eq-ok}
use mss_kv_lab.Kv.{max_val_len}
use mss_kv_lab.Kv.Contract.{IsMap, is_some}
use mss_kv_lab.Kv.Pmemkv.{
  Libpmemkv, status_ok, pmkv_open, pmkv_get, pmkv_put, pmkv_delete, pmkv_count_all, pmkv_exists,
  adapter, assert_config, assert_ok, opened_db,
}

-- The documentation of libpmemkv(3) for the calls above. `setting` is what a configuration holds
-- under a key.
pub record Documented (lib : Libpmemkv) : Type 0 where
  pub entry : lib.Db → Bytes → Option Bytes
  pub count : lib.Db → ℕ
  pub setting : lib.Config → Bytes → Option ℕ
  pub put_uint64_lem :
      (c : lib.Config) (key other : Bytes) (n : ℕ)
      → (lib.pmemkv_config_put_uint64 c key n).0 ≡ status_ok
      → setting (lib.pmemkv_config_put_uint64 c key n).1 other
        ≡ (if bytes_eq key other then some n else setting c other)
  pub create_empty :
      (engine : Bytes) (c : lib.Config) (w w' : lib.Files) (db : lib.Db)
      → setting c (codes "force_create") ≡ some 1
      → lib.pmemkv_open engine c w ≡ (status_ok, some db, w')
      → (count db ≡ 0) × ((k : Bytes) → entry db k ≡ none)
  pub get_copy_fits :
      (db : lib.Db) (k v : Bytes) (max : ℕ)
      → entry db k ≡ some v
      → length v ≤ max
      → lib.pmemkv_get_copy db k max ≡ (status_ok, v)
  pub get_copy_large :
      (db : lib.Db) (k v : Bytes) (max : ℕ)
      → entry db k ≡ some v
      → max < length v
      → (lib.pmemkv_get_copy db k max).0 ≢ status_ok
  pub get_copy_missing :
      (db : lib.Db) (k : Bytes) (max : ℕ)
      → entry db k ≡ none
      → (lib.pmemkv_get_copy db k max).0 ≢ status_ok
  pub put_lem :
      (db : lib.Db) (k v j : Bytes)
      → (lib.pmemkv_put db k v).0 ≡ status_ok
      → entry (lib.pmemkv_put db k v).1 j ≡ (if bytes_eq k j then some v else entry db j)
  pub put_count :
      (db : lib.Db) (k v : Bytes)
      → (lib.pmemkv_put db k v).0 ≡ status_ok
      → count (lib.pmemkv_put db k v).1 ≡ (if is_some (entry db k) then count db else count db + 1)
  pub put_failed :
      (db : lib.Db) (k v : Bytes)
      → (lib.pmemkv_put db k v).0 ≢ status_ok
      → (count (lib.pmemkv_put db k v).1 ≡ count db)
        × ((j : Bytes) → entry (lib.pmemkv_put db k v).1 j ≡ entry db j)
  pub remove_found :
      (db : lib.Db) (k v : Bytes) → entry db k ≡ some v → (lib.pmemkv_remove db k).0 ≡ status_ok
  pub remove_missing :
      (db : lib.Db) (k : Bytes) → entry db k ≡ none → (lib.pmemkv_remove db k).0 ≢ status_ok
  pub remove_lem :
      (db : lib.Db) (k j : Bytes)
      → entry (lib.pmemkv_remove db k).1 j ≡ (if bytes_eq k j then none else entry db j)
  pub remove_count :
      (db : lib.Db) (k : Bytes)
      → count (lib.pmemkv_remove db k).1 ≡ (if is_some (entry db k) then count db - 1 else count db)
  pub count_all_lem : (db : lib.Db) → lib.pmemkv_count_all db ≡ (status_ok, count db)
  pub exists_found :
      (db : lib.Db) (k v : Bytes) → entry db k ≡ some v → lib.pmemkv_exists db k ≡ status_ok
  pub exists_missing :
      (db : lib.Db) (k : Bytes) → entry db k ≡ none → lib.pmemkv_exists db k ≢ status_ok

assert_ok-inversion :
    (lib : Libpmemkv) (r : ℕ × lib.Config) (c : lib.Config)
    → assert_ok lib r ≡ done c
    → (r.0 ≡ status_ok) × (r.1 ≡ c)
unfolding assert_ok
assert_ok-inversion lib r c h = ground arith

opened_db-inversion :
    (lib : Libpmemkv) (r : ℕ × Option lib.Db × lib.Files) (db : lib.Db) (w : lib.Files)
    → opened_db lib r ≡ (some db, w)
    → r ≡ (status_ok, some db, w)
unfolding opened_db
opened_db-inversion lib r db w h = ground arith

module _ (lib : Libpmemkv) (doc : Documented lib) where
  open doc use {entry, count}

  open_create :
      (path : Bytes) (size : ℕ) (w w' : lib.Files) (s : lib.Db)
      → pmkv_open lib path size 1 w ≡ done (some s, w')
      → (count s ≡ 0) × ((k : Bytes) → entry s k ≡ none)
  unfolding pmkv_open
  open_create path size w w' s h =
      let (c0, _, h0) = >>=-eq-ok (assert_config lib lib.pmemkv_config_new) _ h in
      let (c1, _, h1) = >>=-eq-ok (put_path c0) _ h0 in
      let (c2, _, h2) = >>=-eq-ok (put_number c1 (codes "size") size) _ h1 in
      let (c3, e3, h3) = >>=-eq-ok (put_number c2 (codes "force_create") 1) _ h2 in
      let (success, stored) = assert_ok-inversion lib _ c3 e3 in
      doc.create_empty (codes "cmap") c3 w w' s
        (ap (λ c. doc.setting c (codes "force_create")) (sym stored)
          ∙ doc.put_uint64_lem c2 (codes "force_create") (codes "force_create") 1 success)
        (opened_db-inversion lib _ s w' (cc h3))
    where
      put_path : lib.Config → Result lib.Config
      put_path c = assert_ok lib (lib.pmemkv_config_put_string c (codes "path") path)

      put_number : lib.Config → Bytes → ℕ → Result lib.Config
      put_number c key n = assert_ok lib (lib.pmemkv_config_put_uint64 c key n)

  exists_lem :
      (s : lib.Db) (k : Bytes) → pmkv_exists lib s k ≡ (if is_some (entry s k) then 1 else 0)
  unfolding pmkv_exists
  exists_lem s k = elim (Option-cases (entry s k)) [
    | inl e ↦ ground (arith, doc.exists_missing s k e)
    | inr (v, e) ↦ ground (arith, doc.exists_found s k v e)
  ]

  -- src/pmemkv.c implements the contract of README.md when libpmemkv behaves as documented.
  pub adapter-IsMap : IsMap (adapter lib)
  unfolding pmkv_get pmkv_put pmkv_delete pmkv_count_all
  adapter-IsMap = record {
    entry = entry;
    count = count;
    open_create = open_create;
    get_found = λ s k v e fits. doc.get_copy_fits s k v max_val_len e fits;
    get_missing = λ s k e. doc.get_copy_missing s k max_val_len e;
    put_entry = doc.put_lem;
    put_count = doc.put_count;
    put_failed = doc.put_failed;
    delete_found = doc.remove_found;
    delete_missing = doc.remove_missing;
    delete_entry = doc.remove_lem;
    delete_count = doc.remove_count;
    count_all_lem = doc.count_all_lem;
    exists_lem = exists_lem;
  }
