-- ===== src/Bench/Threads/Invariant/Steps.antt =====
-- Every step keeps the invariant, so every reachable state has it.
use mss_kv_lab.Base.{ℕ, ap, arith}
use mss_kv_lab.Bench.Threads.{
  signalled, leaving, signalled_init, signalled_done, System, finish, Move, Wake, Step, move,
  spurious, step_create, step_lock, step_init, step_done, step_arrive, step_test, step_finish,
  step_leave, wake, wake_init, wake_done, Reach, begin, next,
}
use mss_kv_lab.Bench.Threads.Invariant.{is_let_go, Inv, Inv-initial}
use mss_kv_lab.Bench.Threads.Invariant.MainMoves.{create-Inv, test_done-Inv, test_init-Inv}
use mss_kv_lab.Bench.Threads.Invariant.WorkerMoves.{
  move-Inv, main-Inv, arrive-Inv, leave-Inv, test_start-Inv,
}

Move-Inv : {n : ℕ} {s t : System} → Move n s t → Inv n s → Inv n t
unfolding finish
Move-Inv (step_create i e h) inv = create-Inv inv i e h
Move-Inv (step_lock e) inv =
    let here = inv.at_main in test_init-Inv inv (ground arith) (ground (arith, here))
Move-Inv (step_init e) inv =
    let here = inv.at_main in test_init-Inv inv (ground arith) (ground (arith, here))
Move-Inv (step_done e) inv = test_done-Inv inv e
Move-Inv (step_arrive i h e) inv = arrive-Inv inv i h e
Move-Inv (step_test i h e) inv = test_start-Inv inv i h e
Move-Inv (step_finish i h e) inv =
    move-Inv inv i leaving h (λ q. cc) (λ q. cc) (ground arith) (ground arith)
      (λ q. inv.let_go i h (ap is_let_go e)) (λ q. cc)
Move-Inv (step_leave i h e) inv = leave-Inv inv i h e

Wake-Inv : {n : ℕ} {s t : System} → Wake n s t → Inv n s → Inv n t
Wake-Inv (wake i h e) inv =
    move-Inv inv i signalled h (λ q. cc) (λ q. cc) (ground arith) (ground arith) (λ q. cc) (λ q. cc)
Wake-Inv (wake_init e) inv =
    let here = inv.at_main in main-Inv inv signalled_init (ground arith) (ground (arith, here))
Wake-Inv (wake_done e) inv =
    let here = inv.at_main in main-Inv inv signalled_done (ground arith) (ground (arith, here))

-- Every step of any thread, and every wake-up without a signal, keeps the invariant: the counters
-- are the numbers of the threads past their critical sections, the flag is set only when all have
-- arrived, no thread waits once it is set, and the main thread waits only for a count that is
-- short.
pub Step-Inv : {n : ℕ} {s t : System} → Step n s t → Inv n s → Inv n t
Step-Inv (move m) inv = Move-Inv m inv
Step-Inv (spurious w) inv = Wake-Inv w inv

pub Reach-Inv : {n : ℕ} {s : System} → Reach n s → Inv n s
Reach-Inv {n} begin = Inv-initial n
Reach-Inv (next r st) = Step-Inv st (Reach-Inv r)
