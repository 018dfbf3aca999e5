-- ===== src/Bench/Threads/Progress.antt =====
-- What the threads of `RunBenchmark` can rely on: the barrier, the join, and no deadlock.
use native.Mathlib.Decide.{dec_lt}
use mss_kv_lab.Base.{
  ℕ, ◌+◌, ◌≤◌, ◌<◌, ◌≡◌, ◌≢◌, refl, ap, ◌∙◌, ◌⊎◌, inl, inr, ◌↔◌, true, leb, arith, Bool-cases,
}
use mss_kv_lab.Bench.Threads.{
  Worker, absent, entering, waiting, signalled, running, leaving, exited, Main, creating,
  waiting_init, signalled_init, waiting_done, signalled_done, reporting, System, put_at, Move,
  step_create, step_lock, step_init, step_done, step_arrive, step_test, step_finish, step_leave,
  Reach, writer_stops,
}
use mss_kv_lab.Bench.Threads.Count.{number, number-put_at, number-le, number_full, number_short}
use mss_kv_lab.Bench.Threads.Invariant.{has_arrived, has_exited, Inv, MainAt}
use mss_kv_lab.Bench.Threads.Invariant.Steps.{Reach-Inv}

all_arrived :
    {n : ℕ} {s : System} → Inv n s → s.start ≡ true → (j : ℕ) → j < n → has_arrived (s.pc j) ≡ 1
all_arrived {n} {s} inv on =
    number_full has_arrived (λ p. ground arith) n s.pc (omega (arith, inv.arrived, inv.started on))

-- No thread runs the benchmark's method before every thread is initialized.
pub barrier :
    (n : ℕ) (s : System)
    → Reach n s
    → (i : ℕ) → i < n
    → s.pc i ≡ running
    → (s.num_initialized ≡ n) × ((j : ℕ) → j < n → has_arrived (s.pc j) ≡ 1)
barrier n s r i h e =
    let inv = Reach-Inv r in
    let on : s.start ≡ true = inv.let_go i h (ground arith) in
    (
      omega (arith, inv.arrived, inv.started on, number-le has_arrived (λ p. ground arith) n s.pc),
      all_arrived inv on,
    )

-- When `RunBenchmark` goes on to report, every thread has left its last critical section.
pub join :
    (n : ℕ) (s : System)
    → Reach n s
    → s.main ≡ reporting
    → (s.num_done ≡ n) × ((j : ℕ) → j < n → s.pc j ≡ exited)
join n s r e =
    let inv = Reach-Inv r in
    let here = inv.at_main in
    let enough : n ≤ s.num_done = ground (arith, here) in
    let full =
      number_full has_exited (λ p. ground arith) n s.pc (omega (arith, inv.left, enough)) in
    (
      omega (arith, inv.left, enough, number-le has_exited (λ p. ground arith) n s.pc),
      λ j h. ground (arith, full j h),
    )

-- The main thread's next step while it does not wait.
main-Move :
    {n : ℕ} {s : System} (m : Main)
    → s.main ≡ m
    → MainAt n s m
    → (s.main ≡ reporting)
      ⊎ (((t : System) × Move n s t)
          ⊎ ((s.main ≡ waiting_init) × (s.num_initialized < n)
              ⊎ (s.main ≡ waiting_done) × (s.start ≡ true) × (s.num_done < n)))
main-Move {n} (creating k) e at = elim (dec_lt k n) [
  | yes lt ↦ inr (inl (_, step_create k e lt))
  | no ge ↦
      let last : k ≡ n = omega (arith, at.0) in inr (inl (_, step_lock (e ∙ ap creating last)))
]
main-Move waiting_init e at = inr (inr (inl (e, at.1)))
main-Move signalled_init e at = inr (inl (_, step_init e))
main-Move waiting_done e at = inr (inr (inr (e, at.0, at.1)))
main-Move signalled_done e at = inr (inl (_, step_done e))
main-Move reporting e at = inl e

-- A worker's next step, unless it waits or has exited.
worker-Move :
    {n : ℕ} {s : System} (i : ℕ) (p : Worker)
    → i < n
    → s.pc i ≡ p
    → p ≢ absent
    → p ≢ waiting
    → p ≢ exited
    → (t : System) × Move n s t
worker-Move i absent h e made awake there = absurd (made refl)
worker-Move i entering h e made awake there = (_, step_arrive i h e)
worker-Move i waiting h e made awake there = absurd (awake refl)
worker-Move i signalled h e made awake there = (_, step_test i h e)
worker-Move i running h e made awake there = (_, step_finish i h e)
worker-Move i leaving h e made awake there = (_, step_leave i h e)
worker-Move i exited h e made awake there = absurd (there refl)

init-Move :
    {n : ℕ} {s : System}
    → Inv n s
    → s.main ≡ waiting_init
    → s.num_initialized < n
    → (t : System) × Move n s t
init-Move {n} {s} inv e few =
    let (j, h, late) = number_short has_arrived n s.pc (omega (arith, inv.arrived)) in
    worker-Move j (s.pc j) h refl (inv.present j h (ground arith)) (λ p. ground arith)
      (λ p. ground arith)

done-Move :
    {n : ℕ} {s : System}
    → Inv n s
    → s.main ≡ waiting_done
    → s.start ≡ true
    → s.num_done < n
    → (t : System) × Move n s t
done-Move {n} {s} inv e on few =
    let (j, h, late) = number_short has_exited n s.pc (omega (arith, inv.left)) in
    worker-Move j (s.pc j) h refl (inv.present j h (ground arith))
      (λ p. ground (arith, inv.parked j h p)) (λ p. ground arith)

-- No deadlock and no lost signal: in every reachable state the main thread has all the results, or
-- some thread has a step that needs no spurious wake-up.
pub no_deadlock :
    (n : ℕ) (s : System) → Reach n s → (s.main ≡ reporting) ⊎ ((t : System) × Move n s t)
no_deadlock n s r =
    let inv = Reach-Inv r in
    elim (main-Move {s = s} s.main refl inv.at_main) [
      | inl e ↦ inl e
      | inr (inl m) ↦ inr m
      | inr (inr (inl (e, few))) ↦ inr (init-Move inv e few)
      | inr (inr (inr (e, on, few))) ↦ inr (done-Move inv e on few)
    ]

-- In `readwhilewriting` thread 0 writes: while it runs, its test to stop succeeds exactly when
-- every other thread has left.
pub writer_stops_lem :
    (n : ℕ) (s : System)
    → Reach n s
    → 0 < n
    → s.pc 0 ≡ running
    → (writer_stops s ≡ true) ↔ ((j : ℕ) → j < n → j ≢ 0 → s.pc j ≡ exited)
unfolding writer_stops
writer_stops_lem n s r pos e = (only, if_all)
  where
    all : s.num_initialized ≡ n
    all = (barrier n s r 0 pos e).0

    -- the count with thread 0 taken as exited
    with_writer : number has_exited n (put_at s.pc 0 exited) ≡ s.num_done + 1
    with_writer = ground (arith, (Reach-Inv r).left, number-put_at has_exited n s.pc 0 exited pos)

    only : leb s.num_initialized (s.num_done + 1) ≡ true → (j : ℕ) → j < n → j ≢ 0 → s.pc j ≡ exited
    only stops j h other =
        let full =
          number_full has_exited (λ p. ground arith) n (put_at s.pc 0 exited)
            (ground (arith, with_writer, all)) j h in
        ground (arith, full)

    if_all :
        ((j : ℕ) → j < n → j ≢ 0 → s.pc j ≡ exited) → leb s.num_initialized (s.num_done + 1) ≡ true
    if_all gone = elim (Bool-cases (leb s.num_initialized (s.num_done + 1))) [
      | inl stops ↦ stops
      | inr goes ↦
          let short : number has_exited n (put_at s.pc 0 exited) < n =
            ground (arith, with_writer, all) in
          let (j, h, here) = number_short has_exited n (put_at s.pc 0 exited) short in
          absurd (ground (arith, gone j h))
    ]
