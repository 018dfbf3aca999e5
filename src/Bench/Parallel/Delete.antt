-- ===== src/Bench/Parallel/Delete.antt =====
-- `DoDelete` by n threads at once, each over its own block of keys.
use mss_kv_lab.Base.{
  ℕ, suc, [], ◌∷◌, ◌+◌, ◌-◌, ◌*◌, ◌^◌, ◌≤◌, ◌<◌, ◌≡◌, ◌≢◌, refl, sym, ap, ◌∙◌, inl, inr, true,
  Bool-cases, none, List, Bytes, bytes_eq, bytes_eq_sound, length, ltb, lt→ltb, le→ltb, not,
  if◌then◌else◌, arith,
}
use mss_kv_lab.Base.Result.{done}
use mss_kv_lab.Kv.{Pmkv}
use mss_kv_lab.Kv.Contract.{IsMap, is_some}
use mss_kv_lab.Bench.Stats
use mss_kv_lab.Bench.Stats.{Stats}
use mss_kv_lab.Bench.Stats.Laws.{done-finished_ops}
use mss_kv_lab.Bench.Keys.Distinct.{capacity, length-key_of}
use mss_kv_lab.Bench.Workload.{Config, Worker, pick_number, delete_round, delete_loop}
use mss_kv_lab.Bench.Workload.Drawn.{drawn, key-with_key}
use mss_kv_lab.Bench.Workload.Delete.{Removed, delete_loop-Removed}
use mss_kv_lab.Bench.Parallel.{
  Machine, deletes, cfg_of, Shared, view, advanced, round, run_turns, all_started, final_stats,
}
use mss_kv_lab.Bench.Parallel.Turns.{IsEnough, run_turns-keeps, run_turns-finished, run_turns-total}
use mss_kv_lab.Bench.Parallel.Keys.{
  key_at, own_after, total, total-zero, total-suc, total-const, set_at-both,
}

module _ (kv : Pmkv) (map : IsMap kv) (cfg : Config) (m : Machine) (n : ℕ) where
  open map use {entry, count}

  abbrev key : ℕ → ℕ → Bytes
  key t i = key_at cfg.key_size cfg.num t i

  -- What thread t has counted when it has done i rounds.
  record Counting (i : ℕ) (w : Worker kv) : Type 0 where
    pub key_length : length w.key ≡ cfg.key_size
    pub ops : w.stats.ops_done ≡ i

  -- What holds after any turns: each thread has deleted the keys up to its round.
  record Emptying (store0 : kv.Store) (s : Shared kv cfg m) : Type 0 where
    pub own :
        (t i : ℕ)
        → t < n
        → i < cfg.num
        → entry s.store (key t i) ≡ (if ltb i (s.index t) then none else entry store0 (key t i))
    pub others :
        (j : Bytes)
        → ((t i : ℕ) → t < n → i < cfg.num → key t i ≢ j)
        → entry s.store j ≡ entry store0 j
    pub counted : count s.store ≡ count store0 - total n s.index
    pub counting : (t : ℕ) → t < n → Counting (s.index t) (s.worker t)

  -- One round, as a loop of one.
  one_round :
      (t i : ℕ) (w : Worker kv)
      → length w.key ≡ cfg.key_size
      → let w' = delete_round kv (cfg_of kv cfg m t) true t i w in
        Removed kv map (cfg_of kv cfg m t) true t (key t i ∷ []) i w w'
        × (length w'.key ≡ cfg.key_size)
  unfolding delete_round delete_loop drawn pick_number
  one_round t i w h = (
    delete_loop-Removed kv map (cfg_of kv cfg m t) true t 1 i w h,
    ap length (key-with_key (cfg_of kv cfg m t) true t kv i w h) ∙ length-key_of cfg.key_size _,
  )

  module _ (store0 : kv.Store) (fits : n * cfg.num ≤ 2 ^ 31)
      (room : n * cfg.num ≤ capacity cfg.key_size)
      (full : (t i : ℕ) → t < n → i < cfg.num → is_some (entry store0 (key t i)) ≡ true) where
    Emptying-step :
        (t : ℕ) (s : Shared kv cfg m) (w : Worker kv)
        → t < n
        → s.index t < cfg.num
        → round kv cfg m (deletes true) t (s.index t) (view kv cfg m t s) ≡ done w
        → Emptying store0 s
        → Emptying store0 (advanced kv cfg m t s w)
    Emptying-step t s w ht hi ran f =
        let i = s.index t in
        let now : delete_round kv (cfg_of kv cfg m t) true t i (view kv cfg m t s) ≡ w = cc ran in
        let (gone, size) = one_round t i (view kv cfg m t s) (f.counting t ht).key_length in
        let entries : (j : Bytes)
            → entry w.store j ≡ (if bytes_eq (key t i) j then none else entry s.store j) =
          λ j.
            ap (λ (v : Worker kv). entry v.store j) (sym now) ∙ (gone.entries j ∙ ground arith) in
        record {
          own = λ u j hu hj.
              own_after cfg.key_size cfg.num n fits room t u j s.index none (entry store0 (key u j))
                _ ht hu hi hj
                (entries (key u j)
                  ∙ ap (λ o. if bytes_eq (key t i) (key u j) then none else o) (f.own u j hu hj));
          others = λ j away. elim (Bool-cases (bytes_eq (key t i) j)) [
            | inl hit ↦ absurd (away t i ht hi (bytes_eq_sound (key t i) j hit))
            | inr miss ↦
                entries j ∙ (ap (λ b. if b then none else entry s.store j) miss ∙ f.others j away)
          ];
          counted =
              let here : is_some (entry s.store (key t i)) ≡ true =
                ap is_some (
                  f.own t i ht hi
                  ∙ ap (λ b. if b then none else entry store0 (key t i)) (le→ltb i i (omega arith)))
                ∙ full t i ht hi in
              let fewer : count w.store ≡ count s.store - 1 =
                ap (λ (v : Worker kv). count v.store) (sym now)
                ∙ (gone.counted ∙ ap (λ b. count s.store - ((if not b then 0 else 1) + 0)) here) in
              omega (arith, fewer, f.counted, total-suc n s.index t ht);
          counting = λ u hu.
              set_at-both Counting s.index s.worker t u (suc i) w
                (λ same. record {
                  key_length = ap (λ (v : Worker kv). length v.key) (sym now) ∙ size;
                  ops =
                      ap (λ (v : Worker kv). v.stats.ops_done) (sym now)
                      ∙ (ap (λ (v : Stats). v.ops_done) gone.stats
                          ∙ omega (
                            arith,
                            done-finished_ops cfg.flags_histogram (m.clock t) 1 i
                                (s.worker t).stats,
                            (f.counting t ht).ops,
                          ));
                })
                (f.counting u hu);
        }

    -- n threads of `DeleteSeq` on one store that keeps the contract and holds an entry for each of
    -- their keys, each with a key buffer of `key_size_` bytes, where the numbers of all keys stay
    -- in an `int` and fit the key's bytes: whatever the order in which their calls of the store
    -- follow one another, as long as each thread gets its rounds, all of them return, none of their
    -- keys has an entry, every other entry is as before, the number of entries has fallen by n
    -- times `num_`, and each thread reports `num_` operations.
    pub parallel_delete_lem :
        ((t : ℕ) → t < n → length (m.old_key t) ≡ cfg.key_size)
        → (schedule : List ℕ) → IsEnough kv cfg m n (deletes true) schedule
        → (s : Shared kv cfg m) × (run_turns kv cfg m n
              (deletes true)
              schedule
              (all_started kv cfg m (deletes true) store0)
            ≡ done s)
          × ((t i : ℕ) → t < n → i < cfg.num → entry s.store (key t i) ≡ none)
          × ((j : Bytes)
              → ((t i : ℕ) → t < n → i < cfg.num → key t i ≢ j)
              → entry s.store j ≡ entry store0 j)
          × (count s.store ≡ count store0 - n * cfg.num)
          × ((t : ℕ) → t < n → (final_stats kv cfg m (deletes true) t s).ops_done ≡ cfg.num)
    unfolding Stats.start Stats.stop
    parallel_delete_lem buffers schedule enough =
        let start = all_started kv cfg m (deletes true) store0 in
        let (s, ran) =
          run_turns-total kv cfg m n (deletes true) (λ t i w. (_, refl)) schedule start in
        let f =
          run_turns-keeps kv cfg m n (deletes true) (Emptying store0) Emptying-step schedule start s
            ran
            (record {
              own = λ t i ht hi. ground arith;
              others = λ j away. refl;
              counted = omega (arith, total-zero n);
              counting = λ t ht. record { key_length = buffers t ht; ops = refl };
            }) in
        let at_end = λ (t : ℕ) (h : t < n).
          run_turns-finished kv cfg m n (deletes true) schedule store0 s t h enough ran in
        (
          s,
          ran,
          λ t i ht hi.
              f.own t i ht hi
              ∙ ap (λ b. if b then none else entry store0 (key t i))
                  (lt→ltb i (s.index t) (omega (arith, at_end t ht))),
          f.others,
          omega (arith, f.counted, total-const n cfg.num s.index at_end),
          λ t ht. (f.counting t ht).ops ∙ at_end t ht,
        )
