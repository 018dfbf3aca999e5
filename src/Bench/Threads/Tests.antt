-- ===== src/Bench/Threads/Tests.antt =====
-- Two threads through the whole of `RunBenchmark`.
use mss_kv_lab.Base.{ℕ, ◌<◌, ◌≡◌, ◌≢◌, refl, ◌↔◌, true, arith}
use mss_kv_lab.Bench.Threads.{
  exited, System, initial, create, test_start, arrive, finish, leave, test_done, test_init, move,
  step_create, step_lock, step_init, step_done, step_arrive, step_test, step_finish, step_leave,
  Reach, begin, next, writer_stops,
}
use mss_kv_lab.Bench.Threads.Invariant.{has_arrived, Inv}
use mss_kv_lab.Bench.Threads.Invariant.Steps.{Step-Inv, Reach-Inv}
use mss_kv_lab.Bench.Threads.Progress.{barrier, writer_stops_lem}

-- both threads created, the main thread in `Wait`, and both threads in theirs
abbrev parked : System
parked = arrive 2 1 (arrive 2 0 (test_init 2 (create 1 (create 0 initial))))

parked_reach : Reach 2 parked
unfolding initial create test_init arrive
parked_reach =
    next
      (next
        (next
          (next (next begin (move (step_create 0 refl (omega arith))))
            (move (step_create 1 refl (omega arith))))
          (move (step_lock refl)))
        (move (step_arrive 0 (omega arith) refl)))
      (move (step_arrive 1 (omega arith) refl))

-- the main thread has let them go, and thread 0 runs
abbrev one_running : System
one_running = test_start 0 (test_init 2 parked)

one_running_reach : Reach 2 one_running
unfolding initial create test_init arrive
one_running_reach =
    next (next parked_reach (move (step_init refl))) (move (step_test 0 (omega arith) refl))

abbrev one_left : System
one_left = leave 2 1 (finish 1 (test_start 1 one_running))

one_left_reach : Reach 2 one_left
unfolding initial create test_init arrive finish leave
one_left_reach =
    next
      (next (next one_running_reach (move (step_test 1 (omega arith) refl)))
        (move (step_finish 1 (omega arith) refl)))
      (move (step_leave 1 (omega arith) refl))

abbrev all_left : System
all_left = test_done 2 (leave 2 0 (finish 0 one_left))

all_left_reach : Reach 2 all_left
unfolding initial create test_init test_done arrive finish leave
all_left_reach =
    next
      (next (next one_left_reach (move (step_finish 0 (omega arith) refl)))
        (move (step_leave 0 (omega arith) refl)))
      (move (step_done refl))

Step-Inv_example : Inv 2 (test_init 2 parked)
unfolding initial create test_init arrive
Step-Inv_example = Step-Inv {s = parked} (move (step_init refl)) (Reach-Inv parked_reach)

barrier_example :
    (one_running.num_initialized ≡ 2) × ((j : ℕ) → j < 2 → has_arrived (one_running.pc j) ≡ 1)
unfolding initial create test_init arrive
barrier_example = barrier 2 one_running one_running_reach 0 (omega arith) refl

writer_stops_lem_example :
    (writer_stops one_left ≡ true) ↔ ((j : ℕ) → j < 2 → j ≢ 0 → one_left.pc j ≡ exited)
unfolding initial create test_init arrive finish leave
writer_stops_lem_example = writer_stops_lem 2 one_left one_left_reach (omega arith) refl
