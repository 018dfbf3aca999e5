-- ===== src/Bench/Parallel/Outcome.antt =====
-- What n threads of `WriteSeq` leave behind, whatever the order of their calls.
use mss_kv_lab.Base.{
  ℕ, ◌+◌, ◌*◌, ◌%◌, ◌^◌, ◌≤◌, ◌<◌, ◌≡◌, ◌≢◌, ap, ◌∙◌, ◌⊎◌, inl, inr, true, some, List, Bytes,
  length, arith, lt→ltb, if◌then◌else◌, none,
}
use mss_kv_lab.Base.Result.{done, fault, runtime_error}
use mss_kv_lab.Kv.{Pmkv}
use mss_kv_lab.Kv.Contract.{IsMap}
use mss_kv_lab.Bench.Stats
use mss_kv_lab.Bench.Keys.Distinct.{capacity}
use mss_kv_lab.Bench.Workload.{Config}
use mss_kv_lab.Bench.Workload.Write.{value, add_bytes_counts}
use mss_kv_lab.Bench.Workload.Outcome.{Refuses, write_round-Ends}
use mss_kv_lab.Bench.Parallel.{Machine, writes, cfg_of, Shared, run_turns, all_started, final_stats}
use mss_kv_lab.Bench.Parallel.Turns.{IsEnough, run_turns-finished, run_turns-Ends}
use mss_kv_lab.Bench.Parallel.Keys.{key_at, total-const}
use mss_kv_lab.Bench.Parallel.Fill.{Progress, IsNew, run_turns-Filling}

module _ (kv : Pmkv) (map : IsMap kv) (cfg : Config) (m : Machine) (n : ℕ) where
  open map use {entry, count}

  -- Every thread has written its block of keys, and nothing else has changed.
  pub record AllWritten (store0 : kv.Store) (s : Shared kv cfg m) : Type 0 where
    pub own :
        (t i : ℕ)
        → t < n
        → i < cfg.num
        → entry s.store (key_at cfg.key_size cfg.num t i) ≡ some (value kv map cfg true t)
    pub others :
        (j : Bytes)
        → ((t i : ℕ) → t < n → i < cfg.num → key_at cfg.key_size cfg.num t i ≢ j)
        → entry s.store j ≡ entry store0 j
    pub counted : count s.store ≡ count store0 + n * cfg.num
    pub ops : (t : ℕ) → t < n → (final_stats kv cfg m (writes true) t s).ops_done ≡ cfg.num
    pub bytes :
        (t : ℕ)
        → t < n
        → (final_stats kv cfg m (writes true) t s).bytes
          ≡ (cfg.num * (cfg.value_size + cfg.key_size)) % 2 ^ 64

  module _ (store0 : kv.Store) (fits : n * cfg.num ≤ 2 ^ 31)
      (room : n * cfg.num ≤ capacity cfg.key_size)
      (buffers : (t : ℕ) → t < n → length (m.old_key t) ≡ cfg.key_size)
      (new : IsNew kv map cfg m n store0) (schedule : List ℕ)
      (enough : IsEnough kv cfg m n (writes true) schedule) where
    final :
        (t : ℕ) (s : Shared kv cfg m)
        → s.index t ≡ cfg.num
        → Progress kv map cfg m n (s.index t) (s.worker t)
        → ((final_stats kv cfg m (writes true) t s).ops_done ≡ cfg.num)
          × ((final_stats kv cfg m (writes true) t s).bytes
              ≡ (cfg.num * (cfg.value_size + cfg.key_size)) % 2 ^ 64)
    unfolding Stats.stop
    final t s at p =
        let w = s.worker t in
        let per_round : s.index t * (cfg.value_size + cfg.key_size)
            ≡ cfg.num * (cfg.value_size + cfg.key_size) =
          ap (λ (i : ℕ). i * (cfg.value_size + cfg.key_size)) at in
        let (ops, bytes) = add_bytes_counts kv map (cfg_of kv cfg m t) true t w.bytes w.stats in
        (ops ∙ (p.ops ∙ at), bytes ∙ omega (arith, p.bytes, p.stats_bytes, per_round))

    pub run_turns-AllWritten :
        (s : Shared kv cfg m)
        → run_turns kv cfg m n (writes true) schedule (all_started kv cfg m (writes true) store0)
          ≡ done s
        → AllWritten store0 s
    run_turns-AllWritten s ran =
        let f = run_turns-Filling kv map cfg m n store0 fits room schedule s buffers new ran in
        let at_end = λ (t : ℕ) (h : t < n).
          run_turns-finished kv cfg m n (writes true) schedule store0 s t h enough ran in
        record {
          own = λ t i ht hi.
              f.own t i ht hi
              ∙ ap (λ b. if b then some (value kv map cfg true t) else none)
                  (lt→ltb i (s.index t) (omega (arith, at_end t ht)));
          others = f.others;
          counted = omega (arith, f.counted, total-const n cfg.num s.index at_end);
          ops = λ t ht. (final t s (at_end t ht) (f.progress t ht)).0;
          bytes = λ t ht. (final t s (at_end t ht) (f.progress t ht)).1;
        }

    -- n threads of `WriteSeq` on one store that keeps the contract and has none of their keys,
    -- each with a key buffer of `key_size_` bytes, where the numbers of all keys stay in an `int`
    -- and fit the key's bytes: whatever the order in which their calls of the store follow one
    -- another, as long as each thread gets its rounds, the run ends in one of two ways. Either a
    -- `pmkv_put` fails and the wrapper throws, or every key of every thread holds the value, each
    -- other key what it held before, the number of entries has grown by n times `num_`, and each
    -- thread reports `num_` operations and their bytes (modulo 2^64).
    pub parallel_fill_lem :
        let r =
          run_turns kv cfg m n (writes true) schedule (all_started kv cfg m (writes true) store0) in
        (Refuses kv × (r ≡ fault runtime_error))
        ⊎ ((s : Shared kv cfg m) × (r ≡ done s) × AllWritten store0 s)
    parallel_fill_lem =
        elim (run_turns-Ends kv cfg m n (writes true)
          (λ t. write_round-Ends kv (cfg_of kv cfg m t) true t) schedule
          (all_started kv cfg m (writes true) store0)) [
            | inl e ↦ inl e
            | inr (s, e) ↦ inr (s, e, run_turns-AllWritten s e)
          ]
