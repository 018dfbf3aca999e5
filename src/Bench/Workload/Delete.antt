-- ===== src/Bench/Workload/Delete.antt =====
-- `DoDelete`: what it takes away.
use mathlib.Core.Path.{fun_ext}
use mss_kv_lab.Base.{
  ℕ, zero, suc, ◌+◌, ◌-◌, ◌≡◌, refl, ap, ◌∙◌, Bool, not, List, none, Bytes, bytes_eq, ◌||◌, length,
  arith, if◌then◌else◌,
}
use mss_kv_lab.Kv.{Pmkv}
use mss_kv_lab.Kv.Contract.{IsMap, is_some}
use mss_kv_lab.Bench.Wrapper
use mss_kv_lab.Bench.Stats.{Stats}
use mss_kv_lab.Bench.Stats.Laws.{finished_ops, done-finished_ops}
use mss_kv_lab.Bench.Keys.Distinct.{key_of, length-key_of}
use mss_kv_lab.Bench.Workload.{
  Config, Worker, pick_number, with_key, delete_round, delete_loop, do_delete,
}
use mss_kv_lab.Bench.Workload.Drawn.{drawn, length-drawn, mem_key, new_keys, key-with_key}

module _ (kv : Pmkv) (map : IsMap kv) (cfg : Config) (seq : Bool) (tid : ℕ) where
  open map use {entry, count}

  abbrev pub absent : kv.Store → Bytes → Bool
  absent s k = not (is_some (entry s k))

  -- The effect of deleting `keys`. A key that is not there is not counted again.
  pub record Removed (keys : List Bytes) (i : ℕ) (w w' : Worker kv) : Type 0 where
    pub entries :
        (j : Bytes) → entry w'.store j ≡ (if mem_key j keys then none else entry w.store j)
    pub counted : count w'.store ≡ count w.store - new_keys (absent w.store) keys
    pub stats : w'.stats ≡ finished_ops cfg.flags_histogram cfg.clock (length keys) i w.stats

  removed_one :
      (s : kv.Store) (k : Bytes)
      → ((j : Bytes)
          → entry (Wrapper.remove kv s k).1 j ≡ (if bytes_eq k j then none else entry s j))
        × (count (Wrapper.remove kv s k).1 ≡ count s - (if absent s k then 0 else 1))
  unfolding Wrapper.remove
  removed_one s k =
      (λ j. ground (arith, map.delete_entry s k j), ground (arith, map.delete_count s k))

  pub delete_loop-Removed :
      (n i : ℕ) (w : Worker kv)
      → length w.key ≡ cfg.key_size
      → Removed (drawn cfg seq tid n i w.rand) i w (delete_loop kv cfg seq tid n i w)
  unfolding delete_loop delete_round with_key drawn finished_ops
  delete_loop-Removed zero i w h = record {
    entries = λ j. refl;
    counted = omega arith;
    stats = refl;
  }
  delete_loop-Removed (suc n) i w h =
      let k = key_of cfg.key_size (pick_number cfg seq tid i w.rand).0 in
      let w1 = delete_round kv cfg seq tid i w in
      let key_is : w1.key ≡ k = key-with_key cfg seq tid kv i w h in
      let size : length w1.key ≡ cfg.key_size =
        ap length key_is ∙ length-key_of cfg.key_size (pick_number cfg seq tid i w.rand).0 in
      let rest = delete_loop-Removed n (i + 1) w1 size in
      let (gone, fewer) = removed_one w.store k in
      let store_is : w1.store ≡ (Wrapper.remove kv w.store k).1 =
        ap (λ j. (Wrapper.remove kv w.store j).1) key_is in
      let gone1 : (j : Bytes)
          → entry w1.store j ≡ (if bytes_eq k j then none else entry w.store j) =
        λ j. ap (λ s. entry s j) store_is ∙ gone j in
      let absent_now : (j : Bytes) → absent w1.store j ≡ (bytes_eq k j || absent w.store j) =
        λ j. ground (arith, gone1 j) in
      let keys = drawn cfg seq tid n (i + 1) (pick_number cfg seq tid i w.rand).1 in
      record {
        entries = λ j. ground (arith, gone1 j, rest.entries j);
        counted = omega (
          arith,
          rest.counted,
          ap count store_is,
          fewer,
          ap (λ (p : Bytes → Bool). new_keys p keys) (fun_ext absent_now),
        );
        stats = rest.stats;
      }

  -- `DoDelete` over a store that keeps the contract, with a key buffer of `key_size_` bytes,
  -- leaves none of its keys in the store and every other entry alone; the number of entries falls
  -- by the number of its keys that were there, and `num_` operations are counted, failed deletes
  -- included.
  pub do_delete_lem :
      (w : Worker kv)
      → length w.key ≡ cfg.key_size
      → let w' = do_delete kv cfg seq tid w in
        let keys = drawn cfg seq tid cfg.num 0 w.rand in
        ((j : Bytes) → entry w'.store j ≡ (if mem_key j keys then none else entry w.store j))
        × (count w'.store ≡ count w.store - new_keys (absent w.store) keys)
        × (w'.stats.ops_done ≡ w.stats.ops_done + cfg.num)
  unfolding do_delete
  do_delete_lem w h =
      let w1 : Worker kv = record w { bytes = 0; found = 0 } in
      let keys = drawn cfg seq tid cfg.num 0 w.rand in
      let all = delete_loop-Removed cfg.num 0 w1 h in
      (
        all.entries,
        all.counted,
        ap (λ (s : Stats). s.ops_done) all.stats
            ∙ (done-finished_ops cfg.flags_histogram cfg.clock (length keys) 0 w.stats
                ∙ ap (λ n. w.stats.ops_done + n) (length-drawn cfg seq tid cfg.num 0 w.rand)),
      )
