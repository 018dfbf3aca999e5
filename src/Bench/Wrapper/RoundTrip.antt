-- ===== src/Bench/Wrapper/RoundTrip.antt =====
-- A `put` followed by a `get`, and what becomes of a value longer than MAX_VAL_LEN.
use mss_kv_lab.Base.{false, ◌≤◌, ◌<◌, ◌≡◌, ◌∙◌, ap, sym, some, arith}
use mss_kv_lab.Base.{Bytes, bytes_eq, bytes_eq_refl, length}
use mss_kv_lab.Base.Result.{done}
use mss_kv_lab.Kv.{Pmkv, max_val_len}
use mss_kv_lab.Kv.Contract.{IsMap}
use mss_kv_lab.Kv.Pmemkv.{Libpmemkv, adapter, pmkv_get, pmkv_put, pmkv_exists, status_ok}
use mss_kv_lab.Kv.Pmemkv.Refine.{Documented}
use mss_kv_lab.Bench.Wrapper
use mss_kv_lab.Bench.Wrapper.{Status, not_found}
use mss_kv_lab.Bench.Wrapper.Laws.{Fits, looked_up, get_lem, put_lem}

-- When `put` returns, a `get` of the key returns the value, if it is no longer than MAX_VAL_LEN,
-- and a `get` of any other key returns what it did before, if its entry is no longer either.
pub put-get :
    (kv : Pmkv) (map : IsMap kv) (s s' : kv.Store) (k v j old : Bytes) (status : Status)
    → Wrapper.put kv s k v ≡ done (status, s')
    → length v ≤ max_val_len
    → bytes_eq k j ≡ false
    → Fits (map.entry s j)
    → (Wrapper.get kv s' k old ≡ (Status.ok, v))
      × (Wrapper.get kv s' j old ≡ Wrapper.get kv s j old)
put-get kv map s s' k v j old status h small other fits =
    let all = put_lem kv map s k v (status, s') h in
    let here : map.entry s' k ≡ some v = ground (arith, all.entries k, bytes_eq_refl k) in
    let same : map.entry s' j ≡ map.entry s j = ground (arith, all.entries j) in
    (
      get_lem kv map s' k old (rw here small) ∙ ap (λ o. looked_up o old) here,
      get_lem kv map s' j old (rw same fits)
          ∙ (ap (λ o. looked_up o old) same ∙ sym (get_lem kv map s j old fits)),
    )

-- Over pmemkv, a value longer than MAX_VAL_LEN can be stored but not read back: after a `put` that
-- returns, `exists` says OK for the key, while `get` says NOT_FOUND and leaves the string alone.
pub large-put-get :
    (lib : Libpmemkv) (doc : Documented lib) (db db' : lib.Db) (k v old : Bytes) (status : Status)
    → Wrapper.put (adapter lib) db k v ≡ done (status, db')
    → max_val_len < length v
    → (Wrapper.exists (adapter lib) db' k ≡ Status.ok)
      × (Wrapper.get (adapter lib) db' k old ≡ (not_found, old))
unfolding Wrapper.put Wrapper.get Wrapper.exists pmkv_get pmkv_put pmkv_exists
large-put-get lib doc db db' k v old status h large =
    let put_ok : (lib.pmemkv_put db k v).0 ≡ status_ok = ground arith in
    let is_db' : (lib.pmemkv_put db k v).1 ≡ db' = ground arith in
    let here : doc.entry db' k ≡ some v =
      ground (arith, doc.put_lem db k v k put_ok, bytes_eq_refl k, is_db') in
    (
      ground (arith, doc.exists_found db' k v here),
      ground (arith, doc.get_copy_large db' k v max_val_len here large),
    )
