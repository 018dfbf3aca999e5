-- ===== src/Bench/Parallel/Tests.antt =====
-- Two threads on a small store in memory.
use mss_kv_lab.Base.{
  ℕ, zero, suc, ◌+◌, ◌-◌, ◌*◌, ◌≤◌, ◌<◌, ◌≡◌, ◌≢◌, refl, ◌⊎◌, true, false, none, some, List, [],
  ◌∷◌, Bytes, replicate, arith, if◌then◌else◌,
}
use mss_kv_lab.Base.Int.{pos}
use mss_kv_lab.Base.Result.{Result, done, fault, runtime_error}
use mss_kv_lab.Kv.Contract.{is_some}
use mss_kv_lab.Kv.Ram.{ram, ram-IsMap, empty}
use mss_kv_lab.Util.Histogram
use mss_kv_lab.Bench.Keys.{generate_key_from_int, seq_number}
use mss_kv_lab.Bench.Wrapper
use mss_kv_lab.Bench.Stats
use mss_kv_lab.Bench.Stats.{Stats}
use mss_kv_lab.Bench.Workload.{Config, pick_number, with_key, write_round, announced}
use mss_kv_lab.Bench.Workload.Outcome.{Refuses}
use mss_kv_lab.Bench.Parallel.{
  Machine, writes, reads, deletes, Shared, run_turns, turn, all_started, final_stats,
}
use mss_kv_lab.Bench.Parallel.Turns.{turns}
use mss_kv_lab.Bench.Parallel.Keys.{key_at}
use mss_kv_lab.Bench.Parallel.Outcome.{AllWritten, run_turns-AllWritten, parallel_fill_lem}
use mss_kv_lab.Util.Random
use mss_kv_lab.Util.Random.{random}
use mss_kv_lab.Bench.Parallel.Write.{made, parallel_write_lem}
use mss_kv_lab.Bench.Parallel.Delete.{parallel_delete_lem}
use mss_kv_lab.Bench.Parallel.Sequence.{parallel_read_back}

abbrev pub two_each : Config
two_each = record {
  flags_num = 2;
  flags_histogram = false;
  num = 2;
  reads = 2;
  value_size = 2;
  key_size = 10;
  clock = λ i. i;
  ops_text = λ n. n ∷ [];
  found_text = λ n m. n ∷ m ∷ [];
}

abbrev pub no_ops : Stats
no_ops = record {
  begin = 0;
  finish = 0;
  elapsed = pos 0;
  ops_done = 0;
  next_report = 100;
  bytes = 0;
  last_op_finish = 0;
  hist = Histogram.clear;
  message = [];
  exclude_from_merge = false;
}

abbrev pub machine : Machine
machine = record {
  created = λ t. t;
  started = λ t. 10 + t;
  clock = λ t i. 20 + 2 * i + t;
  stopped = λ t. 30 + t;
  old_stats = λ t. no_ops;
  old_key = λ t. replicate 10 255;
}

-- The threads take turns, the second one first.
abbrev pub mixed : List ℕ
mixed = 1 ∷ 0 ∷ 0 ∷ 1 ∷ []

pub two_turns : (t : ℕ) → t < 2 → 2 ≤ turns t mixed
two_turns zero h = omega arith
two_turns (suc zero) h = omega arith
two_turns (suc (suc t)) h = absurd (omega arith)

abbrev or_start : Result (Shared ram two_each machine) → Shared ram two_each machine
or_start (done s) = s
or_start (fault e) = all_started ram two_each machine (writes true) (empty 10)

abbrev after_fill : Shared ram two_each machine
after_fill = or_start (
    run_turns ram two_each machine 2 (writes true) mixed
      (all_started ram two_each machine (writes true) (empty 10)))

four_written : after_fill.store.keys ≡ 4
unfolding run_turns turn write_round with_key pick_number announced seq_number generate_key_from_int
    Wrapper.put Stats.finished_single_op Stats.start
four_written = refl

fill_done :
    run_turns ram two_each machine 2
      (writes true)
      mixed
      (all_started ram two_each machine (writes true) (empty 10))
    ≡ done after_fill
unfolding run_turns turn write_round with_key pick_number announced seq_number generate_key_from_int
    Wrapper.put Stats.finished_single_op Stats.start
fill_done = refl

parallel_fill_lem_example :
    let r =
      run_turns ram two_each machine 2
        (writes true)
        mixed
        (all_started ram two_each machine (writes true) (empty 10)) in
    (Refuses ram × (r ≡ fault runtime_error))
    ⊎ ((s : Shared ram two_each machine) × (r ≡ done s)
        × AllWritten ram ram-IsMap two_each machine 2 (empty 10) s)
unfolding ram-IsMap
parallel_fill_lem_example =
    parallel_fill_lem ram ram-IsMap two_each machine 2 (empty 10) (omega arith) (omega arith)
      (λ t h. refl) (λ t i h h'. refl) mixed two_turns

written : AllWritten ram ram-IsMap two_each machine 2 (empty 10) after_fill
unfolding ram-IsMap
written =
    run_turns-AllWritten ram ram-IsMap two_each machine 2 (empty 10) (omega arith) (omega arith)
      (λ t h. refl) (λ t i h h'. refl) mixed two_turns after_fill fill_done

-- The same with random keys.
abbrev after_random : Shared ram two_each machine
after_random = or_start (
    run_turns ram two_each machine 2 (writes false) mixed
      (all_started ram two_each machine (writes false) (empty 10)))

random_done :
    run_turns ram two_each machine 2
      (writes false)
      mixed
      (all_started ram two_each machine (writes false) (empty 10))
    ≡ done after_random
unfolding run_turns turn write_round with_key pick_number announced generate_key_from_int
    Wrapper.put Stats.finished_single_op Stats.start random Random.next
random_done = refl

parallel_write_lem_example :
    let r =
      run_turns ram two_each machine 2
        (writes false)
        mixed
        (all_started ram two_each machine (writes false) (empty 10)) in
    (Refuses ram × (r ≡ fault runtime_error))
    ⊎ ((s : Shared ram two_each machine) × (r ≡ done s)
        × ((j : Bytes)
            → s.store.at j ≡ (
                if made ram ram-IsMap two_each machine 2 false (λ t. 2) j
                then some (b'X' ∷ b'X' ∷ [])
                else none)))
unfolding ram-IsMap
parallel_write_lem_example =
    parallel_write_lem ram ram-IsMap two_each machine 2 false (empty 10) (λ t h. refl) mixed
      two_turns

parallel_read_back_example :
    (s : Shared ram two_each machine) × (run_turns ram two_each machine 2
        (reads false)
        mixed
        (all_started ram two_each machine (reads false) after_random.store)
      ≡ done s)
    × (s.store ≡ after_random.store)
    × ((t : ℕ) → t < 2 → (final_stats ram two_each machine (reads false) t s).message ≡ 2 ∷ 2 ∷ [])
unfolding ram-IsMap
parallel_read_back_example =
    parallel_read_back ram ram-IsMap two_each machine machine 2 false (empty 10) (λ t h. refl) mixed
      two_turns after_random random_done (omega arith) (λ k. tt) (omega arith) (λ t h. refl) mixed
      two_turns

all_there : (t i : ℕ) → t < 2 → i < 2 → is_some (after_fill.store.at (key_at 10 2 t i)) ≡ true
unfolding ram-IsMap
all_there t i ht hi = rw (written.own t i ht hi) refl

parallel_delete_lem_example :
    (s : Shared ram two_each machine) × (run_turns ram two_each machine 2
        (deletes true)
        mixed
        (all_started ram two_each machine (deletes true) after_fill.store)
      ≡ done s)
    × ((t i : ℕ) → t < 2 → i < 2 → s.store.at (key_at 10 2 t i) ≡ none)
    × ((j : Bytes)
        → ((t i : ℕ) → t < 2 → i < 2 → key_at 10 2 t i ≢ j)
        → s.store.at j ≡ after_fill.store.at j)
    × (s.store.keys ≡ after_fill.store.keys - 4)
    × ((t : ℕ) → t < 2 → (final_stats ram two_each machine (deletes true) t s).ops_done ≡ 2)
unfolding ram-IsMap
parallel_delete_lem_example =
    parallel_delete_lem ram ram-IsMap two_each machine 2 after_fill.store (omega arith)
      (omega arith) all_there (λ t h. refl) mixed two_turns
