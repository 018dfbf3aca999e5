-- ===== src/Bench/Writer.antt =====
-- `BGWriter` and `ReadWhileWriting` of bench/bench.cc. `stops i` is what the test under the mutex
-- finds before round i; Bench/Threads.antt has the test itself.
pub mod Laws
mod Tests
use mss_kv_lab.Base.{ℕ, zero, suc, ◌+◌, Bool, false, Option, none, some, length, if◌then◌else◌}
use mss_kv_lab.Base.Result.{Result, done, fault, exited, ◌>>=◌}
use mss_kv_lab.Kv.{Pmkv}
use mss_kv_lab.Bench.Generator.{Generator, random_generator, generated}
use mss_kv_lab.Bench.Wrapper
use mss_kv_lab.Bench.Wrapper.{Status, not_found}
use mss_kv_lab.Bench.Stats
use mss_kv_lab.Bench.Workload.{Config, Worker, add_int64, begin, read_random}
use mss_kv_lab.Bench.Mixed.{with_random_key}

-- What the loop changes: the thread, the generator and `written`.
pub record Writer (kv : Pmkv) : Type 0 where
  pub worker : Worker kv
  pub gen : Generator
  pub written : ℕ

-- `write_merge` is `kWrite`, as in the only call.
module _ (kv : Pmkv) (cfg : Config) (stops : ℕ → Bool) where
  -- `if (s != OK) { … exit(1); }`
  abbrev pub checked : Status → Writer kv → Result (Writer kv)
  checked Status.ok s = done s
  checked not_found s = fault (exited 1)

  -- One round of the loop, after its test.
  pub writer_round : Writer kv → Result (Writer kv)
  writer_round s =
      let w = with_random_key kv cfg s.worker in
      do
        (value, gen) ← generated s.gen cfg.value_size
        (status, store) ← Wrapper.put kv w.store w.key value
        checked status (record {
          worker = record w {
            store = store;
            bytes = add_int64 kv cfg false 0 w.bytes (length w.key + cfg.value_size);
          };
          gen = gen;
          written = s.written + 1;
        })

  -- The loop from round i, on fuel: `none` when it runs out.
  pub writer_loop : ℕ → ℕ → Writer kv → Option (Result (Writer kv))
  writer_loop zero i s = none
  writer_loop (suc fuel) i s =
      if stops i
      then some (done s)
      else elim (writer_round s) [ done t ↦ writer_loop fuel (i + 1) t | fault e ↦ some (fault e) ]

  -- The locals, after `SetExcludeFromMerge`.
  pub writer_start : ℕ → Worker kv → Writer kv
  writer_start flags_value_size w = record {
    worker = record (begin kv cfg false 0 w) { stats = Stats.set_exclude_from_merge w.stats };
    gen = random_generator flags_value_size;
    written = 0;
  }

  pub writer_end : Writer kv → Worker kv
  writer_end s = let w = s.worker in record w { stats = Stats.add_bytes w.bytes w.stats }

  -- `BGWriter`
  pub bg_writer : ℕ → ℕ → Worker kv → Option (Result (Worker kv))
  bg_writer fuel flags_value_size w = elim (writer_loop fuel 0 (writer_start flags_value_size w)) [
    | some (done s) ↦ some (done (writer_end s))
    | some (fault e) ↦ some (fault e)
    | none ↦ none
  ]

  -- `ReadWhileWriting`, for the thread `tid`
  pub read_while_writing : ℕ → ℕ → ℕ → Worker kv → Option (Result (Worker kv))
  read_while_writing zero fuel flags_value_size w = bg_writer fuel flags_value_size w
  read_while_writing (suc tid) fuel flags_value_size w =
      some (done (read_random kv cfg (suc tid) w))
