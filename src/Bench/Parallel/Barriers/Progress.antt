-- ===== src/Bench/Parallel/Barriers/Progress.antt =====
-- `RunBenchmark` does not get stuck, and what it has done when it reports.
use native.Mathlib.Decide.{dec_lt}
use mss_kv_lab.Base.{ℕ, ◌*◌, ◌^◌, ◌≤◌, ◌<◌, ◌≡◌, refl, ◌⊎◌, inl, inr, length, true, arith, ap}
use mss_kv_lab.Base.Result.{fault, runtime_error}
use mss_kv_lab.Kv.{Pmkv}
use mss_kv_lab.Kv.Contract.{IsMap}
use mss_kv_lab.Bench.Keys.Distinct.{capacity}
use mss_kv_lab.Bench.Threads.{System, Move, running, reporting}
use mss_kv_lab.Bench.Threads.Exits.{Move-leaves}
use mss_kv_lab.Bench.Threads.Progress.{no_deadlock}
use mss_kv_lab.Bench.Workload.{Config, Worker}
use mss_kv_lab.Bench.Workload.Outcome.{Refuses, Ends, write_round-Ends}
use mss_kv_lab.Bench.Parallel.{
  Task, writes, reads, deletes, Machine, cfg_of, rounds, round, Shared, turn,
}
use mss_kv_lab.Bench.Parallel.Turns.{turn-Ends}
use mss_kv_lab.Bench.Parallel.Fill.{IsNew}
use mss_kv_lab.Bench.Parallel.Outcome.{AllWritten, run_turns-AllWritten}
use mss_kv_lab.Bench.Parallel.Barriers.{JointMove, move_sync, move_work, JointReach}
use mss_kv_lab.Bench.Parallel.Barriers.Joined.{JointReach-Reach, report-IsEnough}

-- A round fails in one way only, whatever the method.
pub round-Ends :
    (kv : Pmkv) (cfg : Config) (m : Machine) (task : Task) (t i : ℕ) (w : Worker kv)
    → Ends kv (round kv cfg m task t i w)
round-Ends kv cfg m (writes seq) t i w = write_round-Ends kv (cfg_of kv cfg m t) seq t i w
round-Ends kv cfg m (reads seq) t i w = inr (_, refl)
round-Ends kv cfg m (deletes seq) t i w = inr (_, refl)

module _ (kv : Pmkv) (cfg : Config) (m : Machine) (n : ℕ) where
  module _ (task : Task) where
    -- A step of the synchronization, or a round of the thread that would end its method too early.
    Move-JointMove :
        (s s' : System) (d : Shared kv cfg m)
        → Move n s s'
        → ((t : System) × (d' : Shared kv cfg m) × JointMove kv cfg m n task s d t d')
          ⊎ ((i : ℕ) × (i < n)
              × (s.pc i ≡ running)
              × Refuses kv
              × (turn kv cfg m n task i d ≡ fault runtime_error))
    Move-JointMove s s' d mv = elim (Move-leaves mv) [
      | inl none_new ↦ inl (s', d, move_sync mv (λ i h p. inl (none_new i p)))
      | inr (k, h, works, only) ↦ elim (dec_lt (d.index k) (rounds kv cfg m task)) [
        | no over ↦ inl (
          s',
          d,
          move_sync mv (λ i hi p. elim (only i p) [
            | inl was ↦ inl was
            | inr is_k ↦ inr (omega (arith, over, ap d.index is_k))
          ]),
        )
        | yes more ↦ elim (turn-Ends kv cfg m n task (round-Ends kv cfg m task) k d) [
          | inl (p, e) ↦ inr (k, h, works, p, e)
          | inr (d', e) ↦ inl (s, d', move_work k h works more e)
        ]
      ]
    ]

    -- Whatever the threads have done so far, in any order, `RunBenchmark` has come to its report, or
    -- one of the threads can take a step, or a thread that is to put an entry is refused it and
    -- throws.
    pub never_stuck :
        (store : kv.Store) (s : System) (d : Shared kv cfg m)
        → JointReach kv cfg m n task store s d
        → (s.main ≡ reporting)
          ⊎ (((t : System) × (d' : Shared kv cfg m) × JointMove kv cfg m n task s d t d')
              ⊎ ((i : ℕ) × (i < n)
                  × (s.pc i ≡ running)
                  × Refuses kv
                  × (turn kv cfg m n task i d ≡ fault runtime_error)))
    never_stuck store s d r = elim (no_deadlock n s (JointReach-Reach kv cfg m n task store r)) [
      | inl e ↦ inl e
      | inr (s', mv) ↦ inr (Move-JointMove s s' d mv)
    ]

  -- When `RunBenchmark` of `WriteSeq` comes to its report, whatever its n threads and the main
  -- thread did in whatever order, with wake-ups at any time: on a store that keeps the contract and
  -- had none of the keys, with key buffers of `key_size_` bytes and numbers of keys that stay in an
  -- `int` and fit the key's bytes, every key of every thread holds the value, each other key what
  -- it held before, the number of entries has grown by n times `num_`, and each thread has counted
  -- all its operations and bytes.
  pub report-AllWritten :
      (map : IsMap kv) (store : kv.Store) (s : System) (d : Shared kv cfg m)
      (fits : n * cfg.num ≤ 2 ^ 31) (room : n * cfg.num ≤ capacity cfg.key_size)
      → ((t : ℕ) → t < n → length (m.old_key t) ≡ cfg.key_size)
      → IsNew kv map cfg m n store
      → JointReach kv cfg m n (writes true) store s d
      → s.main ≡ reporting
      → AllWritten kv map cfg m n store d
  report-AllWritten map store s d fits room buffers new r e =
      let (schedule, enough, ran) = report-IsEnough kv cfg m n (writes true) store r e in
      run_turns-AllWritten kv map cfg m n store fits room buffers new schedule enough d ran
