-- ===== src/Bench/Parallel/Fill.antt =====
-- `DoWrite` by n threads at once, each over its own block of keys.
use mss_kv_lab.Base.{
  ℕ, suc, ◌+◌, ◌*◌, ◌%◌, ◌^◌, ◌≤◌, ◌<◌, ◌≡◌, ◌≢◌, refl, ap, ◌∙◌, inl, inr, true, Bool-cases, none,
  some, List, Bytes, bytes_eq, bytes_eq_sound, length, ltb, if◌then◌else◌, arith,
}
use mss_kv_lab.Base.Result.{done}
use mss_kv_lab.Kv.{Pmkv}
use mss_kv_lab.Kv.Contract.{IsMap}
use mss_kv_lab.Bench.Stats
use mss_kv_lab.Bench.Stats.{Stats}
use mss_kv_lab.Bench.Stats.Laws.{done-finished_ops, bytes-finished_ops}
use mss_kv_lab.Bench.Keys.Distinct.{capacity}
use mss_kv_lab.Bench.Workload.{Config, Worker, pick_number}
use mss_kv_lab.Bench.Workload.Write.{value, announced_counts, WroteOne, write_round-WroteOne}
use mss_kv_lab.Bench.Parallel.{
  Machine, writes, cfg_of, Shared, view, advanced, round, run_turns, all_started,
}
use mss_kv_lab.Bench.Parallel.Turns.{run_turns-keeps}
use mss_kv_lab.Bench.Parallel.Keys.{key_at, own_after, total, total-zero, total-suc, set_at-both}

module _ (kv : Pmkv) (map : IsMap kv) (cfg : Config) (m : Machine) (n : ℕ) where
  open map use {entry, count}

  abbrev key : ℕ → ℕ → Bytes
  key t i = key_at cfg.key_size cfg.num t i

  abbrev written : Bytes
  written = value kv map cfg true 0

  -- No key of the threads is there before.
  abbrev pub IsNew : kv.Store → Type 0
  IsNew store0 = (t i : ℕ) → t < n → i < cfg.num → entry store0 (key t i) ≡ none

  -- What thread t has counted when it has done i rounds.
  pub record Progress (i : ℕ) (w : Worker kv) : Type 0 where
    pub key_length : length w.key ≡ cfg.key_size
    pub ops : w.stats.ops_done ≡ i
    pub bytes : w.bytes % 2 ^ 64 ≡ (i * (cfg.value_size + cfg.key_size)) % 2 ^ 64
    pub stats_bytes : w.stats.bytes ≡ 0

  -- What holds after any turns: each thread has written the keys up to its round.
  pub record Filling (store0 : kv.Store) (s : Shared kv cfg m) : Type 0 where
    pub own :
        (t i : ℕ)
        → t < n
        → i < cfg.num
        → entry s.store (key t i) ≡ (if ltb i (s.index t) then some written else none)
    pub others :
        (j : Bytes)
        → ((t i : ℕ) → t < n → i < cfg.num → key t i ≢ j)
        → entry s.store j ≡ entry store0 j
    pub counted : count s.store ≡ count store0 + total n s.index
    pub progress : (t : ℕ) → t < n → Progress (s.index t) (s.worker t)

  module _ (store0 : kv.Store) (fits : n * cfg.num ≤ 2 ^ 31)
      (room : n * cfg.num ≤ capacity cfg.key_size) where
    Progress-step :
        (t i : ℕ) (w w' : Worker kv)
        → WroteOne kv map (cfg_of kv cfg m t) true t (key t i) i w w'
        → Progress i w
        → Progress (suc i) w'
    Progress-step t i w w' one p =
        let stats = one.stats in
        let done_one = done-finished_ops cfg.flags_histogram (m.clock t) 1 i w.stats in
        let no_bytes = bytes-finished_ops cfg.flags_histogram (m.clock t) 1 i w.stats in
        record {
          key_length = one.key_length;
          ops = ap (λ (s : Stats). s.ops_done) stats ∙ omega (arith, done_one, p.ops);
          bytes = omega (arith, one.bytes, p.bytes);
          stats_bytes = ap (λ (s : Stats). s.bytes) stats ∙ (no_bytes ∙ p.stats_bytes);
        }

    Filling-step :
        (t : ℕ) (s : Shared kv cfg m) (w : Worker kv)
        → t < n
        → s.index t < cfg.num
        → round kv cfg m (writes true) t (s.index t) (view kv cfg m t s) ≡ done w
        → Filling store0 s
        → Filling store0 (advanced kv cfg m t s w)
    unfolding pick_number
    Filling-step t s w ht hi ran f =
        let one =
          write_round-WroteOne kv map (cfg_of kv cfg m t) true t (s.index t) (view kv cfg m t s) w
            (f.progress t ht).key_length ran in
        record {
          own = λ u j hu hj.
              own_after cfg.key_size cfg.num n fits room t u j s.index (some written) none _ ht hu
                hi hj
                (one.entries (key u j)
                  ∙ ap (λ o. if bytes_eq (key t (s.index t)) (key u j) then some written else o)
                      (f.own u j hu hj));
          others = λ j away. elim (Bool-cases (bytes_eq (key t (s.index t)) j)) [
            | inl hit ↦ absurd (away t (s.index t) ht hi (bytes_eq_sound _ j hit))
            | inr miss ↦
                one.entries j
                ∙ (ap (λ b. if b then some written else entry s.store j) miss ∙ f.others j away)
          ];
          counted =
              ground (
                arith,
                one.counted,
                f.counted,
                total-suc n s.index t ht,
                f.own t (s.index t) ht hi,
              );
          progress = λ u hu.
              set_at-both Progress s.index s.worker t u _ w
                (λ same. Progress-step t (s.index t) _ w one (
                  let p = f.progress t ht in
                  record {
                    key_length = p.key_length;
                    ops = p.ops;
                    bytes = p.bytes;
                    stats_bytes = p.stats_bytes;
                  }))
                (f.progress u hu);
        }

    Filling-start :
        ((t : ℕ) → t < n → length (m.old_key t) ≡ cfg.key_size)
        → IsNew store0
        → Filling store0 (all_started kv cfg m (writes true) store0)
    unfolding Stats.start
    Filling-start buffers new = record {
      own = λ t i ht hi. new t i ht hi ∙ ground arith;
      others = λ j away. refl;
      counted = omega (arith, total-zero n);
      progress = λ t ht. record {
        key_length = buffers t ht;
        ops = (announced_counts kv map (cfg_of kv cfg m t) true t _).0;
        bytes = omega arith;
        stats_bytes = (announced_counts kv map (cfg_of kv cfg m t) true t _).1;
      };
    }

    pub run_turns-Filling :
        (schedule : List ℕ) (s : Shared kv cfg m)
        → ((t : ℕ) → t < n → length (m.old_key t) ≡ cfg.key_size)
        → IsNew store0
        → run_turns kv cfg m n (writes true) schedule (all_started kv cfg m (writes true) store0)
          ≡ done s
        → Filling store0 s
    run_turns-Filling schedule s buffers new ran =
        run_turns-keeps kv cfg m n (writes true) (Filling store0) Filling-step schedule _ s ran
          (Filling-start buffers new)
