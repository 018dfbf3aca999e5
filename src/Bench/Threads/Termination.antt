-- ===== src/Bench/Threads/Termination.antt =====
-- How many steps the threads of `RunBenchmark` have left, when no thread wakes up without a signal.
use native.Mathlib.Decide.{dec_lt}
use mss_kv_lab.Base.{
  ℕ, zero, suc, ◌+◌, ◌-◌, ◌*◌, ◌≤◌, ◌<◌, ◌≡◌, ap, Bool, false, leb, ltb, Bool-cases, inl, inr,
  if◌then◌else◌, arith,
}
use mss_kv_lab.Bench.Threads.{
  Worker, absent, entering, waiting, signalled, running, leaving, exited, Main, creating,
  waiting_init, signalled_init, waiting_done, signalled_done, reporting, System, initial, put_at,
  woken, woken_main, create, arrive, finish, leave, test_done, test_init, Move, step_create,
  step_lock, step_init, step_done, step_arrive, step_test, step_finish, step_leave,
}
use mss_kv_lab.Bench.Threads.Count.{number, number-put_at, number_full}
use mss_kv_lab.Bench.Threads.Invariant.{has_arrived, has_exited, Inv}

-- The steps that a worker has before it, if nobody waits twice.
abbrev rank : Worker → ℕ
rank absent = 6
rank entering = 5
rank signalled = 4
rank waiting = 3
rank running = 2
rank leaving = 1
rank exited = 0

abbrev rank_main : ℕ → Main → ℕ
rank_main n (creating k) = (n - k) + 6
rank_main n signalled_init = 5
rank_main n waiting_init = 4
rank_main n signalled_done = 2
rank_main n waiting_done = 1
rank_main n reporting = 0

-- What one `SignalAll` that is still to come may add: a step for each worker and the main thread.
abbrev to_come : ℕ → Bool → ℕ
to_come n b = if b then n + 2 else 0

unfoldable pub steps_left : ℕ → System → ℕ
steps_left n s =
    number rank n s.pc
    + rank_main n s.main
    + (to_come n (ltb s.num_initialized n)
        + (if s.start then 0 else n + 2)
        + to_come n (ltb s.num_done n))

number-woken : (n : ℕ) (pc : ℕ → Worker) → number rank n (λ j. woken (pc j)) ≤ number rank n pc + n
unfolding number
number-woken zero pc = omega arith
number-woken (suc n) pc = ground (arith, number-woken n pc)

-- A thread that has not arrived, or not exited, is missing in the count.
missing :
    (w : Worker → ℕ) (small : (p : Worker) → w p ≤ 1) (n : ℕ) (pc : ℕ → Worker) (i : ℕ)
    → i < n
    → w (pc i) ≡ 0
    → number w n pc < n
missing w small n pc i h out = elim (dec_lt (number w n pc) n) [
  | yes short ↦ short
  | no full ↦ absurd (omega (arith, number_full w small n pc (omega arith) i h, out))
]

woken_main-rank : (n : ℕ) (p : Main) → rank_main n (woken_main p) ≤ rank_main n p + 1
woken_main-rank n p = ground arith

-- The two tests of the main thread, from where they stand.
test_done-steps_left :
    (n : ℕ) (s : System) → 1 < rank_main n s.main → steps_left n (test_done n s) < steps_left n s
unfolding steps_left test_done
test_done-steps_left n s at = ground arith

test_init-steps_left :
    (n : ℕ) (s : System)
    → 4 < rank_main n s.main
    → s.start ≡ false
    → steps_left n (test_init n s) < steps_left n s
unfolding steps_left test_init test_done
test_init-steps_left n s at off =
    let up = number-woken n s.pc in
    elim (Bool-cases (ltb s.num_initialized n)) [
      | inl few ↦ rw few ground arith
      | inr all ↦ rw all ground (arith, up, off, at)
    ]

pub Move-steps_left :
    {n : ℕ} {s s' : System} → Move n s s' → Inv n s → steps_left n s' < steps_left n s
unfolding steps_left create finish arrive leave
Move-steps_left {n} {s} (step_create i e h) inv =
    let was : s.pc i ≡ absent = inv.unmade i h (ground (arith, e)) in
    let sum = number-put_at rank n s.pc i entering h in ground (arith, sum, was, e)
Move-steps_left {n} {s} (step_lock e) inv =
    let here = inv.at_main in test_init-steps_left n s (ground arith) (ground (arith, here))
Move-steps_left {n} {s} (step_init e) inv =
    let here = inv.at_main in test_init-steps_left n s (ground arith) (ground (arith, here))
Move-steps_left {n} {s} (step_done e) inv = test_done-steps_left n s (ground arith)
Move-steps_left {n} {s} (step_arrive i h e) inv =
    let short = missing has_arrived (λ p. ground arith) n s.pc i h (ap has_arrived e) in
    let few : s.num_initialized < n = omega (arith, short, inv.arrived) in
    let next : Worker = if s.start then running else waiting in
    let quiet = number-put_at rank n s.pc i next h in
    let loud = number-put_at rank n (λ j. woken (s.pc j)) i next h in
    let up = number-woken n s.pc in
    let main_up = woken_main-rank n s.main in
    elim (Bool-cases (leb n (s.num_initialized + 1))) [
      | inl last ↦ rw last ground (arith, e, loud, up, main_up, few)
      | inr more ↦ rw more ground (arith, e, quiet)
    ]
Move-steps_left {n} {s} (step_test i h e) inv =
    let sum = number-put_at rank n s.pc i (if s.start then running else waiting) h in
    ground (arith, sum, e)
Move-steps_left {n} {s} (step_finish i h e) inv =
    let sum = number-put_at rank n s.pc i leaving h in ground (arith, sum, e)
Move-steps_left {n} {s} (step_leave i h e) inv =
    let short = missing has_exited (λ p. ground arith) n s.pc i h (ap has_exited e) in
    let few : s.num_done < n = omega (arith, short, inv.left) in
    let sum = number-put_at rank n s.pc i exited h in
    let up = number-woken n (put_at s.pc i exited) in
    let main_up = woken_main-rank n s.main in
    elim (Bool-cases (leb n (s.num_done + 1))) [
      | inl last ↦ rw last ground (arith, e, sum, up, main_up, few)
      | inr more ↦ rw more ground (arith, e, sum)
    ]

absent-rank : (n : ℕ) → number rank n (λ j. absent) ≡ 6 * n
unfolding number
absent-rank zero = omega arith
absent-rank (suc n) = omega (arith, absent-rank n)

pub steps_left-initial : (n : ℕ) → steps_left n initial ≤ 10 * n + 12
unfolding steps_left initial
steps_left-initial n = let all_absent = absent-rank n in ground (arith, all_absent)
