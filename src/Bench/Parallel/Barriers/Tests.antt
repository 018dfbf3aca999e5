-- ===== src/Bench/Parallel/Barriers/Tests.antt =====
-- Two threads that write one key each, through the whole of `RunBenchmark`.
use mss_kv_lab.Base.{ℕ, zero, suc, ◌≤◌, ◌<◌, ◌≡◌, refl, ◌⊎◌, inr, List, arith, true}
use mss_kv_lab.Base.Result.{Result, done, fault, runtime_error}
use mss_kv_lab.Kv.Ram.{ram, ram-IsMap, empty}
use mss_kv_lab.Bench.Keys.{generate_key_from_int, seq_number}
use mss_kv_lab.Bench.Wrapper
use mss_kv_lab.Bench.Stats
use mss_kv_lab.Bench.Threads.{
  leaving, running, reporting, System, initial, create, test_start, arrive, finish, leave,
  test_done, test_init, Move, step_create, step_lock, step_init, step_done, step_arrive, step_test,
  step_finish, step_leave,
}
use mss_kv_lab.Bench.Workload.{Config, pick_number, with_key, write_round, announced}
use mss_kv_lab.Bench.Workload.Outcome.{Refuses}
use mss_kv_lab.Bench.Parallel.{writes, Shared, turn, run_turns, all_started}
use mss_kv_lab.Bench.Parallel.Turns.{IsEnough}
use mss_kv_lab.Bench.Parallel.Outcome.{AllWritten}
use mss_kv_lab.Bench.Parallel.Tests.{two_each, machine}
use mss_kv_lab.Bench.Parallel.Barriers.{
  JointMove, move_sync, move_work, JointRun, run_begin, run_next,
}
use mss_kv_lab.Bench.Parallel.Barriers.Termination.{JointRun-JointReach, run_ends}
use mss_kv_lab.Bench.Parallel.Barriers.Joined.{report-IsEnough}
use mss_kv_lab.Bench.Parallel.Barriers.Progress.{never_stuck, report-AllWritten}

abbrev one_each : Config
one_each = record two_each { num = 1 }

abbrev State : Type 0
State = Shared ram one_each machine

abbrev d0 : State
d0 = all_started ram one_each machine (writes true) (empty 10)

abbrev or_d0 : Result State → State
or_d0 (done d) = d
or_d0 (fault e) = d0

abbrev d1 : State
d1 = or_d0 (turn ram one_each machine 2 (writes true) 1 d0)

abbrev d2 : State
d2 = or_d0 (turn ram one_each machine 2 (writes true) 0 d1)

turn1 : turn ram one_each machine 2 (writes true) 1 d0 ≡ done d1
unfolding turn write_round with_key pick_number announced seq_number generate_key_from_int
    Wrapper.put Stats.finished_single_op Stats.start
turn1 = refl

turn0 : turn ram one_each machine 2 (writes true) 0 d1 ≡ done d2
unfolding turn write_round with_key pick_number announced seq_number generate_key_from_int
    Wrapper.put Stats.finished_single_op Stats.start
turn0 = refl

abbrev At : ℕ → System → State → Type 0
At k s d = JointRun ram one_each machine 2 (writes true) (empty 10) k s d

abbrev parked : System
parked = arrive 2 1 (arrive 2 0 (test_init 2 (create 1 (create 0 initial))))

go :
    {k : ℕ} {s s' : System} {d : State}
    → At k s d
    → Move 2 s s'
    → ((i : ℕ) → i < 2 → s'.pc i ≡ leaving → (s.pc i ≡ leaving) ⊎ (1 ≤ d.index i))
    → At (suc k) s' d
go r mv over = run_next r (move_sync mv over)

parked-At : At 5 parked d0
unfolding initial create test_init arrive
parked-At =
    go
      (go
        (go
          (go (go run_begin (step_create 0 refl (omega arith)) (λ i h p. ground arith))
            (step_create 1 refl (omega arith)) (λ i h p. ground arith))
          (step_lock refl) (λ i h p. ground arith))
        (step_arrive 0 (omega arith) refl) (λ i h p. ground arith))
      (step_arrive 1 (omega arith) refl) (λ i h p. ground arith)

abbrev running_both : System
running_both = test_start 1 (test_start 0 (test_init 2 parked))

running-At : At 8 running_both d0
unfolding initial create test_init arrive
running-At =
    go
      (go (go parked-At (step_init refl) (λ i h p. ground arith)) (step_test 0 (omega arith) refl)
        (λ i h p. ground arith))
      (step_test 1 (omega arith) refl) (λ i h p. ground arith)

one_worked : At 9 running_both d1
unfolding initial create test_init arrive
one_worked = run_next running-At (move_work 1 (omega arith) refl (omega arith) turn1)

index_after : (i : ℕ) → i < 2 → 1 ≤ d2.index i
unfolding turn write_round with_key pick_number announced seq_number generate_key_from_int
    Wrapper.put Stats.finished_single_op Stats.start
index_after zero h = omega arith
index_after (suc zero) h = omega arith
index_after (suc (suc i)) h = absurd (omega arith)

both_worked : At 10 running_both d2
unfolding initial create test_init arrive turn write_round with_key pick_number announced seq_number
    generate_key_from_int Wrapper.put Stats.finished_single_op Stats.start
both_worked = run_next one_worked (move_work 0 (omega arith) refl (omega arith) turn0)

abbrev all_left : System
all_left = test_done 2 (leave 2 1 (finish 1 (leave 2 0 (finish 0 running_both))))

all_left-At : At 15 all_left d2
unfolding initial create test_init test_done arrive finish leave
all_left-At =
    go
      (go
        (go
          (go (go both_worked (step_finish 0 (omega arith) refl) (λ i h p. inr (index_after i h)))
            (step_leave 0 (omega arith) refl) (λ i h p. inr (index_after i h)))
          (step_finish 1 (omega arith) refl) (λ i h p. inr (index_after i h)))
        (step_leave 1 (omega arith) refl) (λ i h p. inr (index_after i h)))
      (step_done refl) (λ i h p. inr (index_after i h))

never_stuck_example :
    (running_both.main ≡ reporting)
    ⊎ (((t : System) × (d : State) × JointMove ram one_each machine 2
            (writes true)
            running_both
            d1
            t
            d)
        ⊎ ((i : ℕ) × (i < 2)
            × (running_both.pc i ≡ running)
            × Refuses ram
            × (turn ram one_each machine 2 (writes true) i d1 ≡ fault runtime_error)))
never_stuck_example =
    never_stuck ram one_each machine 2 (writes true) (empty 10) running_both d1
      (JointRun-JointReach ram one_each machine 2 (writes true) (empty 10) one_worked)

report-IsEnough_example :
    (schedule : List ℕ) × IsEnough ram one_each machine 2 (writes true) schedule
    × (run_turns ram one_each machine 2 (writes true) schedule d0 ≡ done d2)
unfolding initial create test_init test_done arrive finish leave
report-IsEnough_example =
    report-IsEnough ram one_each machine 2 (writes true) (empty 10)
      (JointRun-JointReach ram one_each machine 2 (writes true) (empty 10) all_left-At) refl

report-AllWritten_example : AllWritten ram ram-IsMap one_each machine 2 (empty 10) d2
unfolding ram-IsMap initial create test_init test_done arrive finish leave
report-AllWritten_example =
    report-AllWritten ram one_each machine 2 ram-IsMap (empty 10) all_left d2 (omega arith)
      (omega arith) (λ t h. refl) (λ t i h h'. refl)
      (JointRun-JointReach ram one_each machine 2 (writes true) (empty 10) all_left-At) refl

run_ends_example :
    (9 ≤ 34)
    × ((running_both.main ≡ reporting)
        ⊎ (((t : System) × (d : State) × At 10 t d)
            ⊎ ((i : ℕ) × (i < 2)
                × (running_both.pc i ≡ running)
                × Refuses ram
                × (turn ram one_each machine 2 (writes true) i d1 ≡ fault runtime_error))))
run_ends_example =
    run_ends ram one_each machine 2 (writes true) (empty 10) 9 running_both d1 one_worked
