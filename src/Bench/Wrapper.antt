-- ===== src/Bench/Wrapper.antt =====
-- `PMKVWrapper` of bench/bench.cc: the C interface behind pmemkv's statuses and exceptions.
pub mod Laws
pub mod RoundTrip
mod Tests
use mss_kv_lab.Base.{ℕ, Bool, Option, none, some, Bytes, ◌==◌, if◌then◌else◌}
use mss_kv_lab.Base.Result.{Result, done, fault, runtime_error}
use mss_kv_lab.Kv.{Pmkv}

-- `pmem::kv::status`, as far as the class makes values of it
pub data Status : Type 0 where
  ok not_found : Status

module _ (kv : Pmkv) where
  -- The constructor: a null handle becomes an exception.
  unfoldable pub opened : Option kv.Store × kv.World → Result (kv.Store × kv.World)
  opened (none, w) = fault runtime_error
  opened (some s, w) = done (s, w)

  unfoldable pub construct : Bytes → ℕ → Bool → kv.World → Result (kv.Store × kv.World)
  unfolding opened
  construct path size create w = elim (kv.pmkv_open path size (if create then 1 else 0) w) [
    | done r ↦ opened r
    | fault e ↦ fault e
  ]

  -- The destructor.
  unfoldable pub destroy : kv.Store → kv.World → kv.World
  destroy s w = kv.pmkv_close s w

  -- `value` is the caller's string; it is assigned on success only.
  unfoldable pub get : kv.Store → Bytes → Bytes → Status × Bytes
  get s key value =
      let (status, out) = kv.pmkv_get s key in
      if status == 0 then (Status.ok, out) else (not_found, value)

  unfoldable pub put : kv.Store → Bytes → Bytes → Result (Status × kv.Store)
  put s key value =
      let (status, s') = kv.pmkv_put s key value in
      if status == 0 then done (Status.ok, s') else fault runtime_error

  unfoldable pub remove : kv.Store → Bytes → Status × kv.Store
  remove s key =
      let (status, s') = kv.pmkv_delete s key in
      if status == 0 then (Status.ok, s') else (not_found, s')

  unfoldable pub count_all : kv.Store → Result (Status × ℕ)
  count_all s =
      let (status, cnt) = kv.pmkv_count_all s in
      if status == 0 then done (Status.ok, cnt) else fault runtime_error

  unfoldable pub exists : kv.Store → Bytes → Status
  exists s key = if kv.pmkv_exists s key == 0 then not_found else Status.ok
