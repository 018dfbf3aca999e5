-- ===== src/Bench/Parallel/Sequence.antt =====
-- A fill and a read of the same kind, one after the other, by n threads each. `RunBenchmark` makes
-- new thread states for each, so the generators start from the same seeds again.
use mss_kv_lab.Base.{
  ℕ, zero, suc, ◌+◌, ◌≤◌, ◌<◌, ◌≡◌, refl, sym, ap, ◌∙◌, Bool, true, false, some, List, [], ◌∷◌,
  Bytes, length, length-replicate, if◌then◌else◌, arith,
}
use mss_kv_lab.Base.Result.{done}
use mss_kv_lab.Kv.{Pmkv, max_val_len}
use mss_kv_lab.Kv.Contract.{IsMap, is_some}
use mss_kv_lab.Util.Random.{Random}
use mss_kv_lab.Bench.Wrapper.Laws.{Fits}
use mss_kv_lab.Bench.Stats
use mss_kv_lab.Bench.Keys.Distinct.{key_of}
use mss_kv_lab.Bench.Workload.{Config, Worker, pick_number}
use mss_kv_lab.Bench.Workload.Drawn.{drawn, mem_key}
use mss_kv_lab.Bench.Workload.Read.{hits, hits_all, do_read_lem}
use mss_kv_lab.Bench.Workload.Sequence.{Fits-if}
use mss_kv_lab.Bench.Parallel.{
  Machine, writes, reads, cfg_of, Shared, run_turns, first_worker, all_started, final_stats,
}
use mss_kv_lab.Bench.Parallel.Turns.{IsEnough}
use mss_kv_lab.Bench.Parallel.Read.{parallel_read_lem}
use mss_kv_lab.Bench.Parallel.Write.{any-true, keys_of, made, written, run_turns-made}

-- A message that starts empty is what is added to it.
no_text : (msg : Bytes) → Stats.append_with_space [] msg ≡ msg
unfolding Stats.append_with_space
no_text [] = refl
no_text (c ∷ msg) = refl

module _ (kv : Pmkv) (cfg : Config) (m : Machine) (t : ℕ) where
  pick-cfg_of :
      (seq : Bool) (i : ℕ) (r : Random)
      → pick_number (cfg_of kv cfg m t) seq t i r ≡ pick_number cfg seq t i r
  unfolding pick_number
  pick-cfg_of true i r = refl
  pick-cfg_of false i r = refl

  -- The clock has no part in the keys.
  drawn-cfg_of :
      (seq : Bool) (k i : ℕ) (r : Random)
      → drawn (cfg_of kv cfg m t) seq t k i r ≡ drawn cfg seq t k i r
  unfolding drawn
  drawn-cfg_of seq zero i r = refl
  drawn-cfg_of seq (suc k) i r =
      ap (λ p. key_of cfg.key_size p.0 ∷ drawn (cfg_of kv cfg m t) seq t k (i + 1) p.1)
        (pick-cfg_of seq i r)
      ∙ ap (λ l. key_of cfg.key_size (pick_number cfg seq t i r).0 ∷ l)
          (drawn-cfg_of seq k (i + 1) (pick_number cfg seq t i r).1)

module _ (kv : Pmkv) (map : IsMap kv) (cfg : Config) (m m' : Machine) (n : ℕ) (seq : Bool)
    (store0 : kv.Store) (buffers : (t : ℕ) → t < n → length (m.old_key t) ≡ cfg.key_size)
    (schedule : List ℕ) (enough : IsEnough kv cfg m n (writes seq) schedule) (s : Shared kv cfg m)
    (filled : run_turns kv cfg m n (writes seq) schedule (all_started kv cfg m (writes seq) store0)
      ≡ done s)
    (small : cfg.value_size ≤ max_val_len) (fit0 : (k : Bytes) → Fits (map.entry store0 k)) where
  open map use {entry}

  entries :
      (j : Bytes)
      → entry s.store j ≡ (
          if made kv map cfg m n seq (λ t. cfg.num) j
          then some (written kv map cfg m n seq)
          else entry store0 j)
  entries = run_turns-made kv map cfg m n seq store0 buffers schedule enough s filled

  entry-Fits : (k : Bytes) → Fits (entry s.store k)
  entry-Fits k =
      Fits-if (made kv map cfg m n seq (λ t. cfg.num) k) (entry s.store k) (entry store0 k)
        (written kv map cfg m n seq) (entries k)
        (omega (arith, length-replicate {A = ℕ} cfg.value_size b'X', small)) (fit0 k)

  -- What thread t draws is there.
  there :
      (t : ℕ) (j : Bytes)
      → t < n
      → mem_key j
          (drawn (cfg_of kv cfg m' t) seq t cfg.num 0 (first_worker kv cfg m' t s.store).rand)
        ≡ true
      → is_some (entry s.store j) ≡ true
  there t j h here =
      let mine : mem_key j (keys_of kv map cfg m n seq t cfg.num) ≡ true =
        ap (mem_key j)
          (drawn-cfg_of kv cfg m t seq cfg.num 0 _ ∙ sym (drawn-cfg_of kv cfg m' t seq cfg.num 0 _))
        ∙ here in
      let is_made = any-true n (λ u. mem_key j (keys_of kv map cfg m n seq u cfg.num)) t h mine in
      ap is_some (
        entries j
        ∙ ap (λ b. if b then some (written kv map cfg m n seq) else entry store0 j) is_made)

  -- After a fill by n threads that returned, over a store whose entries fit the buffer of `get`, a
  -- read by n threads of the same kind, sequential or random, with no more reads than writes per
  -- thread and key buffers of `key_size_` bytes: whatever the orders of the calls in the two runs,
  -- as long as each thread gets its rounds, the read returns, the store is as before, and each
  -- thread reports `reads_` of `reads_` found.
  pub parallel_read_back :
      cfg.reads ≤ cfg.num
      → ((t : ℕ) → t < n → length (m'.old_key t) ≡ cfg.key_size)
      → (schedule' : List ℕ) → IsEnough kv cfg m' n (reads seq) schedule'
      → (s' : Shared kv cfg m') × (run_turns kv cfg m' n
            (reads seq)
            schedule'
            (all_started kv cfg m' (reads seq) s.store)
          ≡ done s')
        × (s'.store ≡ s.store)
        × ((t : ℕ)
            → t < n
            → (final_stats kv cfg m' (reads seq) t s').message ≡ cfg.found_text cfg.reads cfg.reads)
  unfolding Stats.start Stats.stop
  parallel_read_back fewer buffers' schedule' enough' =
      let (s', ran, same, own) =
        parallel_read_lem kv cfg m' n seq s.store false schedule' enough' in
      (
        s',
        ran,
        same,
        λ t h.
            let w = first_worker kv cfg m' t s.store in
            let (_, _, message) =
              do_read_lem kv map (cfg_of kv cfg m' t) seq t false w (buffers' t h) entry-Fits in
            let all : hits (entry s.store) (drawn (cfg_of kv cfg m' t) seq t cfg.reads 0 w.rand)
                ≡ cfg.reads =
              hits_all (cfg_of kv cfg m' t) seq t (entry s.store) cfg.reads cfg.num 0 w.rand fewer
                (λ j here. there t j h here) in
            ap (λ (v : Worker kv). v.stats.message) (own t h)
            ∙ (message ∙ (no_text _ ∙ ap (λ k. cfg.found_text k cfg.reads) all)),
      )
