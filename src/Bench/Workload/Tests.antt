-- ===== src/Bench/Workload/Tests.antt =====
-- The workloads on a small store in memory.
use mss_kv_lab.Base.{◌≡◌, refl, ◌⊎◌, true, false, [], ◌∷◌, none, Bytes, replicate, arith, bytes_eq}
use mss_kv_lab.Base.Int.{pos}
use mss_kv_lab.Base.Result.{Result, done, fault, runtime_error}
use mss_kv_lab.Kv.Ram.{RamStore, ram, ram-IsMap, empty, updated}
use mss_kv_lab.Util.Histogram
use mss_kv_lab.Bench.Keys.{generate_key_from_int, seq_number}
use mss_kv_lab.Bench.Wrapper
use mss_kv_lab.Bench.Wrapper.Laws.{Fits}
use mss_kv_lab.Bench.Stats
use mss_kv_lab.Bench.Stats.{Stats}
use mss_kv_lab.Bench.Workload.{
  Config, Worker, pick_number, with_key, write_round, write_loop, announced, do_write, do_delete,
}
use mss_kv_lab.Bench.Workload.Write.{Filled}
use mss_kv_lab.Bench.Workload.Outcome.{Refuses, do_write-outcome}
use mss_kv_lab.Bench.Workload.Sequence.{Fits-if, delete_back}
use mss_kv_lab.Bench.Keys.Distinct.{key_of}
use mss_kv_lab.Bench.Workload.Sequence.{delete_back}

abbrev small : Config
small = record {
  flags_num = 3;
  flags_histogram = false;
  num = 3;
  reads = 2;
  value_size = 2;
  key_size = 10;
  clock = λ i. i;
  ops_text = λ n. n ∷ [];
  found_text = λ n m. n ∷ m ∷ [];
}

abbrev no_ops : Stats
no_ops = record {
  begin = 0;
  finish = 0;
  elapsed = pos 0;
  ops_done = 0;
  next_report = 100;
  bytes = 0;
  last_op_finish = 0;
  hist = Histogram.clear;
  message = [];
  exclude_from_merge = false;
}

abbrev thread : RamStore → Worker ram
thread store = record {
  store = store;
  rand = record { seed = 1001 };
  stats = no_ops;
  key = replicate 10 255;
  bytes = 7;
  found = 7;
}

abbrev or_else : Result (Worker ram) → Worker ram → Worker ram
or_else (done w) v = w
or_else (fault e) v = v

abbrev after_fill : Worker ram
after_fill = or_else (do_write ram small true 1 (thread (empty 10))) (thread (empty 10))

three_written : after_fill.store.keys ≡ 3
unfolding do_write write_loop write_round with_key pick_number announced seq_number
    generate_key_from_int Wrapper.put Stats.finished_single_op Stats.add_bytes
three_written = refl

fill_done : do_write ram small true 1 (thread (empty 10)) ≡ done after_fill
unfolding do_write write_loop write_round with_key pick_number announced seq_number
    generate_key_from_int Wrapper.put Stats.finished_single_op Stats.add_bytes
fill_done = refl

do_write-outcome_example :
    (Refuses ram × (do_write ram small true 1 (thread (empty 10)) ≡ fault runtime_error))
    ⊎ ((w' : Worker ram) × (do_write ram small true 1 (thread (empty 10)) ≡ done w')
        × Filled ram ram-IsMap small true 1 (thread (empty 10)) w')
do_write-outcome_example = do_write-outcome ram small true 1 ram-IsMap (thread (empty 10)) refl

-- A store with the first key of a sequential workload only.
abbrev one_key : RamStore
one_key = updated (empty 10) (key_of 10 0) (b'X' ∷ b'X' ∷ [])

one_key-Fits : (k : Bytes) → Fits (one_key.at k)
one_key-Fits k =
    Fits-if (bytes_eq (key_of 10 0) k) (one_key.at k) none (b'X' ∷ b'X' ∷ []) refl (omega arith) tt

-- The thread of the next workload: the store is kept, the rest starts again.
abbrev next_thread : Worker ram
next_thread = thread after_fill.store

delete_back_example : (do_delete ram small true 1 next_thread).store.keys ≡ 0
unfolding ram-IsMap
delete_back_example =
    delete_back ram ram-IsMap small true 1 (thread (empty 10)) after_fill next_thread refl fill_done
      refl refl refl (λ j p. refl)
