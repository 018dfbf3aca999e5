-- ===== src/Bench/Parallel/EndToEnd/Tests.antt =====
-- The list `fillseq,readseq,deleteseq` on a small store in memory.
use mss_kv_lab.Bench.Parallel.Tests.{two_each, machine, mixed, two_turns}
use mss_kv_lab.Base.{ℕ, ◌≡◌, refl, Option, none, some, [], ◌∷◌, codes, arith, ◌⊎◌}
use mss_kv_lab.Base.Result.{Result, done, fault, Fault}
use mss_kv_lab.Kv.Ram.{RamStore, ram, ram-IsMap, empty, updated}
use mss_kv_lab.Bench.Keys.{generate_key_from_int, seq_number}
use mss_kv_lab.Bench.Wrapper
use mss_kv_lab.Bench.Wrapper.Laws.{IsEmpty}
use mss_kv_lab.Bench.Stats
use mss_kv_lab.Bench.Stats.{Stats}
use mss_kv_lab.Bench.Workload.{
  pick_number, with_key, write_round, read_round, delete_round, announced,
}
use mss_kv_lab.Bench.Run.{
  Method, names, names_of, chosen, Flags, open_db, start_over, ensure_open, run_method, run_name,
  run_names, run,
}
use mss_kv_lab.Bench.Parallel.{run_turns, turn, simple_task, run_benchmark}
use mss_kv_lab.Bench.Parallel.EndToEnd.Returns.{Reason, fill_read_delete-outcome}

abbrev flags : Flags
flags = record {
  benchmarks = codes "fillseq,readseq,deleteseq";
  db = codes "/pool";
  db_size_in_gb = 1;
  threads = 2;
}

abbrev remove_file : Option RamStore → Option RamStore
remove_file w = none

abbrev no_others : Method → ℕ → RamStore → Result RamStore
no_others m n s = done s

abbrev bench : Method → ℕ → RamStore → Result RamStore
bench = run_benchmark ram two_each (λ b. machine) (λ b. mixed) no_others

abbrev used : RamStore
used = updated (empty 5) (9 ∷ []) (9 ∷ [])

abbrev before : Option RamStore × Option RamStore
before = (some used, none)

abbrev or_before : Result (Option RamStore × Option RamStore) → Option RamStore × Option RamStore
or_before (done st) = st
or_before (fault e) = before

abbrev at_end : Option RamStore × Option RamStore
at_end = or_before (run ram remove_file bench flags before)

returns : run ram remove_file bench flags before ≡ done at_end
unfolding run run_names run_name names names_of chosen start_over ensure_open open_db run_method
    run_benchmark simple_task run_turns turn write_round read_round delete_round with_key
    pick_number announced seq_number generate_key_from_int Wrapper.put Wrapper.get Wrapper.remove
    Wrapper.construct Wrapper.opened Wrapper.destroy Stats.finished_single_op Stats.start
returns = refl

fill_read_delete-outcome_example :
    ((e : Fault) × Reason ram ram-IsMap two_each
        (λ b. machine)
        (λ b. mixed)
        no_others
        2
        remove_file
        flags
        e
      × (run ram remove_file bench flags before ≡ fault e))
    ⊎ ((s : RamStore) × (w : Option RamStore) × (run ram remove_file bench flags before
          ≡ done (some s, w))
        × IsEmpty ram ram-IsMap s)
fill_read_delete-outcome_example =
    fill_read_delete-outcome ram ram-IsMap two_each (λ b. machine) (λ b. mixed) no_others 2
      remove_file flags (omega arith) (omega arith) (λ b t h. refl) refl refl two_turns two_turns
      two_turns before
