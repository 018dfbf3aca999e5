-- ===== src/Bench/Wrapper/Laws.antt =====
-- What a client of the wrapper sees, over any implementation of the contract.
use mss_kv_lab.Base.{ℕ, refl, ◌∙◌, true, ◌+◌, ◌≤◌, ◌≡◌, inl, inr, Option, none, some, arith}
use mss_kv_lab.Base.{Bytes, bytes_eq, length, Option-cases, if◌then◌else◌}
use mss_kv_lab.Base.Result.{Result, fault, done}
use mss_kv_lab.Kv.{Pmkv, max_val_len}
use mss_kv_lab.Kv.Contract.{IsMap, is_some}
use mss_kv_lab.Bench.Wrapper
use mss_kv_lab.Bench.Wrapper.{Status, not_found, opened}

-- What a `get` into a string that holds `old` returns for an entry.
abbrev pub looked_up : Option Bytes → Bytes → Status × Bytes
looked_up none old = (not_found, old)
looked_up (some v) old = (Status.ok, v)

-- An entry that fits the buffer of `get`.
abbrev pub Fits : Option Bytes → Type 0
Fits none = Unit
Fits (some v) = length v ≤ max_val_len

module _ (kv : Pmkv) (map : IsMap kv) where
  open map use {entry, count}

  pub get_lem :
      (s : kv.Store) (k old : Bytes)
      → Fits (entry s k)
      → Wrapper.get kv s k old ≡ looked_up (entry s k) old
  unfolding Wrapper.get
  get_lem s k old fits = elim (Option-cases (entry s k)) [
    | inl e ↦ ground (arith, map.get_missing s k e)
    | inr (v, e) ↦ ground (arith, map.get_found s k v e)
  ]

  -- What a `put` leaves behind when it returns, and that it never returns another status than OK.
  pub record Stored (s : kv.Store) (k v : Bytes) (r : Status × kv.Store) : Type 0 where
    pub status : r.0 ≡ Status.ok
    pub entries : (j : Bytes) → entry r.1 j ≡ (if bytes_eq k j then some v else entry s j)
    pub counted : count r.1 ≡ (if is_some (entry s k) then count s else count s + 1)

  pub put_lem :
      (s : kv.Store) (k v : Bytes) (r : Status × kv.Store)
      → Wrapper.put kv s k v ≡ done r
      → Stored s k v r
  unfolding Wrapper.put
  put_lem s k v r h = record {
    status = ground arith;
    entries = λ j. ground (arith, map.put_entry s k v j);
    counted = ground (arith, map.put_count s k v);
  }

  pub remove_lem :
      (s : kv.Store) (k : Bytes)
      → (Wrapper.remove kv s k).0 ≡ (if is_some (entry s k) then Status.ok else not_found)
  unfolding Wrapper.remove
  remove_lem s k = elim (Option-cases (entry s k)) [
    | inl e ↦ ground (arith, map.delete_missing s k e)
    | inr (v, e) ↦ ground (arith, map.delete_found s k v e)
  ]

  -- A store without an entry.
  abbrev pub IsEmpty : kv.Store → Type 0
  IsEmpty s = (count s ≡ 0) × ((k : Bytes) → entry s k ≡ none)

  opened-IsEmpty :
      (r : Result (Option kv.Store × kv.World)) (path : Bytes) (size : ℕ) (w w' : kv.World)
      (s : kv.Store)
      → kv.pmkv_open path size 1 w ≡ r
      → (elim r [ done o ↦ opened kv o | fault e ↦ fault e ]) ≡ done (s, w')
      → IsEmpty s
  unfolding opened
  opened-IsEmpty (done (none, v)) path size w w' s e h = cc
  opened-IsEmpty (done (some t, v)) path size w w' s e h =
      map.open_create path size w w' s (e ∙ cc h)
  opened-IsEmpty (fault f) path size w w' s e h = cc

  pub construct-IsEmpty :
      (path : Bytes) (size : ℕ) (w w' : kv.World) (s : kv.Store)
      → Wrapper.construct kv path size true w ≡ done (s, w')
      → IsEmpty s
  unfolding Wrapper.construct
  construct-IsEmpty path size w w' s h = opened-IsEmpty _ path size w w' s refl h
