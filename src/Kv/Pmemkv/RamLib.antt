-- ===== src/Kv/Pmemkv/RamLib.antt =====
-- A concrete library in memory, for the witnesses, that behaves as libpmemkv documents: a configuration is what it holds under
-- each key, and the pool file is a store.
use mss_kv_lab.Base.{ℕ, ◌≡◌, refl, Option, none, some, [], arith}
use mss_kv_lab.Base.{ap, Bool, false, Bytes, bytes_eq, codes, length, ltb, ◌==◌, if◌then◌else◌}
use mss_kv_lab.Kv.Contract.{is_some}
use mss_kv_lab.Kv.Ram.{RamStore, empty, ram_put, ram_delete}
use mss_kv_lab.Kv.Pmemkv.{Libpmemkv}
use mss_kv_lab.Kv.Pmemkv.Refine.{Documented}
use mss_kv_lab.Kv.Pmemkv.Opening.{Configured}

pub record Settings : Type 0 where
  pub numbers : Bytes → Option ℕ
  pub texts : Bytes → Option Bytes

abbrev pub creates : Option ℕ → Bool
creates none = false
creates (some n) = n == 1

abbrev pub lib_open : Settings → Option RamStore → ℕ × Option RamStore × Option RamStore
lib_open c w =
    if creates (c.numbers (codes "force_create")) then (0, some (empty 10), w) else (0, w, w)

abbrev pub lib_get : RamStore → Bytes → ℕ → ℕ × Bytes
lib_get s k max = elim (s.at k) [
  | none ↦ (2, [])
  | some v ↦ if ltb max (length v) then (3, []) else (0, v)
]

abbrev pub lib : Libpmemkv
lib = record {
  Files = Option RamStore;
  Config = Settings;
  Db = RamStore;
  pmemkv_config_new = some (record { numbers = λ k. none; texts = λ k. none });
  pmemkv_config_put_string =
      λ c key path. (0, record c { texts = λ j. if bytes_eq key j then some path else c.texts j });
  pmemkv_config_put_uint64 =
      λ c key n. (0, record c { numbers = λ j. if bytes_eq key j then some n else c.numbers j });
  pmemkv_open = λ engine c w. lib_open c w;
  pmemkv_close = λ s w. some s;
  pmemkv_get_copy = lib_get;
  pmemkv_put = ram_put;
  pmemkv_remove = ram_delete;
  pmemkv_count_all = λ s. (0, s.keys);
  pmemkv_exists = λ s k. if is_some (s.at k) then 0 else 2;
}

abbrev pub opened_on : RamStore → ℕ × Option RamStore × Option RamStore → RamStore
opened_on s (n, none, w) = s
opened_on s (n, some t, w) = t

creates_empty :
    (c : Settings) (w w' : Option RamStore) (db : RamStore)
    → c.numbers (codes "force_create") ≡ some 1
    → lib_open c w ≡ (0, some db, w')
    → empty 10 ≡ db
creates_empty c w w' db e h = ap (opened_on db) (rw (e) at h)

pub lib-Documented : Documented lib
lib-Documented = record {
  entry = λ s. s.at;
  count = λ s. s.keys;
  setting = λ c. c.numbers;
  put_uint64_lem = λ c key other n h. refl;
  create_empty = λ engine c w w' db e h.
      let same = creates_empty c w w' db e h in (rw (← same), λ k. rw (← same));
  get_copy_fits = λ s k v max e fits. ground arith;
  get_copy_large = λ s k v max e large. ground arith;
  get_copy_missing = λ s k max e. ground arith;
  put_lem = λ s k v j h. ground arith;
  put_count = λ s k v h. ground arith;
  put_failed = λ s k v h. (ground arith, λ j. ground arith);
  remove_found = λ s k v e. ground arith;
  remove_missing = λ s k e. ground arith;
  remove_lem = λ s k j. refl;
  remove_count = λ s k. refl;
  count_all_lem = λ s. refl;
  exists_found = λ s k v e. ground arith;
  exists_missing = λ s k e. ground arith;
}

abbrev pub lib-Configured : Configured lib
lib-Configured = record {
  number = λ c. c.numbers;
  text = λ c. c.texts;
  string_text = λ c key other value ok. refl;
  uint64_number = λ c key other n ok. refl;
  uint64_text = λ c key other n ok. refl;
}
