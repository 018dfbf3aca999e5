-- ===== src/Bench/Wrapper/Tests.antt =====
-- Two keys in a store in memory.
use mss_kv_lab.Base.{
  ◌<◌, ℕ, length, length-replicate, replicate, ◌+◌, ◌≡◌, refl, [], ◌∷◌, Bytes, arith,
}
use mss_kv_lab.Kv.Ram.{RamStore, ram, ram-IsMap, empty, updated}
use mss_kv_lab.Bench.Wrapper
use mss_kv_lab.Kv.Pmemkv.{adapter, pmkv_put}
use mss_kv_lab.Kv.Pmemkv.RamLib.{lib, lib-Documented}
use mss_kv_lab.Kv.{max_val_len}
use mss_kv_lab.Bench.Wrapper.{Status, not_found}
use mss_kv_lab.Bench.Wrapper.RoundTrip.{put-get, large-put-get}

abbrev stored : RamStore
stored = updated (empty 4) (1 ∷ []) (7 ∷ 8 ∷ [])

put-get_example :
    (Wrapper.get ram stored (1 ∷ []) (9 ∷ []) ≡ (Status.ok, 7 ∷ 8 ∷ []))
    × (Wrapper.get ram stored (2 ∷ []) (9 ∷ []) ≡ Wrapper.get ram (empty 4) (2 ∷ []) (9 ∷ []))
unfolding Wrapper.put ram-IsMap
put-get_example =
    put-get ram ram-IsMap (empty 4) stored (1 ∷ []) (7 ∷ 8 ∷ []) (2 ∷ []) (9 ∷ []) Status.ok refl
      (omega arith) refl tt

longer : (n x : ℕ) → n < length (replicate {A = ℕ} (n + 1) x)
longer n x = omega (arith, length-replicate {A = ℕ} (n + 1) x)

-- One byte more than fits.
unfoldable large : Bytes
large = replicate (max_val_len + 1) 7

large_is_long : max_val_len < length large
unfolding large
large_is_long = longer max_val_len 7

abbrev large_stored : RamStore
large_stored = updated (empty 4) (1 ∷ []) large

large-put-get_example :
    (Wrapper.exists (adapter lib) large_stored (1 ∷ []) ≡ Status.ok)
    × (Wrapper.get (adapter lib) large_stored (1 ∷ []) (9 ∷ []) ≡ (not_found, 9 ∷ []))
unfolding Wrapper.put pmkv_put
large-put-get_example =
    large-put-get lib lib-Documented (empty 4) large_stored (1 ∷ []) large (9 ∷ []) Status.ok refl
      large_is_long
