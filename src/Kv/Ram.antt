-- ===== src/Kv/Ram.antt =====
-- A concrete store in memory, as a function with the number of its keys: the input on which the
-- witnesses and the tests run. A put of a new key fails at `room` keys.
use mss_kv_lab.Base.{ℕ, ◌+◌, ◌-◌, ◌≡◌, refl, Option, none, some, [], arith}
use mss_kv_lab.Base.{Bytes, bytes_eq, ltb, ◌==◌, if◌then◌else◌, ◌&&◌, not}
use mss_kv_lab.Base.Result.{Result, done}
use mss_kv_lab.Kv.{Pmkv}
use mss_kv_lab.Kv.Contract.{IsMap, is_some}

pub record RamStore : Type 0 where
  pub at : Bytes → Option Bytes
  pub keys : ℕ
  pub room : ℕ

abbrev pub empty : ℕ → RamStore
empty n = record { at = λ k. none; keys = 0; room = n }

abbrev pub ram_open : Bytes → ℕ → ℕ → Option RamStore → Result (Option RamStore × Option RamStore)
ram_open path size force w = if force == 1 then done (some (empty size), w) else done (w, w)

abbrev pub ram_get : RamStore → Bytes → ℕ × Bytes
ram_get s k = elim (s.at k) [ none ↦ (2, []) | some v ↦ (0, v) ]

abbrev pub updated : RamStore → Bytes → Bytes → RamStore
updated s k v = record s {
  at = λ j. if bytes_eq k j then some v else s.at j;
  keys = if is_some (s.at k) then s.keys else s.keys + 1;
}

abbrev pub ram_put : RamStore → Bytes → Bytes → ℕ × RamStore
ram_put s k v =
    if not (is_some (s.at k)) && not (ltb s.keys s.room) then (1, s) else (0, updated s k v)

abbrev pub ram_delete : RamStore → Bytes → ℕ × RamStore
ram_delete s k = (
  if is_some (s.at k) then 0 else 2,
  record s {
    at = λ j. if bytes_eq k j then none else s.at j;
    keys = if is_some (s.at k) then s.keys - 1 else s.keys;
  },
)

abbrev pub ram : Pmkv
ram = record {
  World = Option RamStore;
  Store = RamStore;
  pmkv_open = ram_open;
  pmkv_close = λ s w. some s;
  pmkv_get = ram_get;
  pmkv_put = ram_put;
  pmkv_delete = ram_delete;
  pmkv_count_all = λ s. (0, s.keys);
  pmkv_exists = λ s k. if is_some (s.at k) then 1 else 0;
}

unfoldable pub ram-IsMap : IsMap ram
ram-IsMap = record {
  entry = λ s. s.at;
  count = λ s. s.keys;
  open_create = λ path size w w' s h. let e : empty size ≡ s = cc h in (rw (← e), λ k. rw (← e));
  get_found = λ s k v e fits. ground arith;
  get_missing = λ s k e. ground arith;
  put_entry = λ s k v j h. ground arith;
  put_count = λ s k v h. ground arith;
  put_failed = λ s k v h. (ground arith, λ j. ground arith);
  delete_found = λ s k v e. ground arith;
  delete_missing = λ s k e. ground arith;
  delete_entry = λ s k j. refl;
  delete_count = λ s k. refl;
  count_all_lem = λ s. refl;
  exists_lem = λ s k. refl;
}
