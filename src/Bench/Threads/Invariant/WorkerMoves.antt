-- ===== src/Bench/Threads/Invariant/WorkerMoves.antt =====
-- The workers' steps keep the invariant.
use mathlib.Core.Path.{fun_ext, subst}
use native.Mathlib.Decide.{dec_lt}
use mss_kv_lab.Base.{
  ℕ, ◌+◌, ◌<◌, ◌≡◌, ◌≢◌, sym, ap, ◌∙◌, true, false, leb, if◌then◌else◌, arith, Bool-cases, inl, inr,
}
use mss_kv_lab.Bench.Threads.{
  Worker, absent, entering, waiting, signalled, running, leaving, exited, Main, creating,
  waiting_init, signalled_init, waiting_done, signalled_done, reporting, System, put_at, woken,
  signal_all_if, test_start, arrive, leave,
}
use mss_kv_lab.Bench.Threads.Count.{number_ext, number-put_at, number_full}
use mss_kv_lab.Bench.Threads.Invariant.{has_arrived, has_exited, is_let_go, made, MainAt, Inv}

module _ {n : ℕ} {s : System} (inv : Inv n s) where
  open inv use {arrived, left, started, let_go, parked, unmade, present, at_main}

  pub move-Inv :
      (i : ℕ) (p : Worker)
      → i < n
      → s.pc i ≢ absent
      → p ≢ absent
      → has_arrived p ≡ has_arrived (s.pc i)
      → has_exited p ≡ has_exited (s.pc i)
      → (is_let_go p ≡ true → s.start ≡ true)
      → (p ≡ waiting → s.start ≡ false)
      → Inv n (record s { pc = put_at s.pc i p })
  move-Inv i p h here there same_a same_e go wait = record {
    arrived = omega (arith, arrived, number-put_at has_arrived n s.pc i p h, same_a);
    left = omega (arith, left, number-put_at has_exited n s.pc i p h, same_e);
    started = started;
    let_go = λ j k q. ground (arith, let_go j k);
    parked = λ j k q. ground (arith, parked j k);
    unmade = λ j k q. ground (arith, unmade j k, unmade i h);
    present = λ j k q. ground (arith, present j k);
    at_main = at_main;
  }

  -- The main thread moves, past the creation of the threads or not.
  pub main-Inv :
      (m : Main) → made n m ≡ made n s.main → MainAt n s m → Inv n (record s { main = m })
  main-Inv m same at = record {
    arrived = arrived;
    left = left;
    started = started;
    let_go = let_go;
    parked = parked;
    unmade = λ j k p. unmade j k (omega (arith, same));
    present = λ j k p. present j k (omega (arith, same));
    at_main = main_at m at;
  }
    where
      main_at : (m' : Main) → MainAt n s m' → MainAt n (record s { main = m }) m'
      main_at (creating k) at' = at'
      main_at waiting_init at' = at'
      main_at signalled_init at' = at'
      main_at waiting_done at' = at'
      main_at signalled_done at' = at'
      main_at reporting at' = at'

  -- `SignalAll` moves waiting threads only.
  signal-Inv : Inv n (signal_all_if true s)
  signal-Inv = record {
    arrived = arrived ∙ number_ext has_arrived n s.pc (λ j. woken (s.pc j)) (λ j h. ground arith);
    left = left ∙ number_ext has_exited n s.pc (λ j. woken (s.pc j)) (λ j h. ground arith);
    started = started;
    let_go = λ j k p. ground (arith, let_go j k);
    parked = λ j k p. ground arith;
    unmade = λ j k p. ground (arith, unmade j k);
    present = λ j k p. ground (arith, present j k);
    at_main = ground (arith, at_main);
  }

  -- The first critical section, before a signal and before `start` is tested.
  not_full : (i : ℕ) → i < n → has_arrived (s.pc i) ≡ 0 → s.num_initialized < n
  not_full i h zero_here = elim (dec_lt s.num_initialized n) [
    | yes few ↦ few
    | no full ↦ absurd (
        omega (
          arith,
          number_full has_arrived (λ p. ground arith) n s.pc (omega (arith, arrived)) i h,
          zero_here,
        ))
  ]

  off_before : (i : ℕ) → i < n → s.pc i ≡ entering → s.start ≡ false
  off_before i h e = elim (Bool-cases s.start) [
    | inl on ↦ absurd (omega (arith, started on, not_full i h (ap has_arrived e)))
    | inr off ↦ off
  ]

  enter-Inv :
      (i : ℕ)
      → i < n
      → s.pc i ≡ entering
      → (s.main ≡ waiting_init → s.num_initialized + 1 < n)
      → Inv n (test_start i (record s { num_initialized = s.num_initialized + 1 }))
  enter-Inv i h e room =
      let off = off_before i h e in
      record {
        arrived = ground (arith, off, arrived, number-put_at has_arrived n s.pc i waiting h);
        left = ground (arith, off, left, number-put_at has_exited n s.pc i waiting h);
        started = λ on. cc (off, on);
        let_go = λ j k p. ground (arith, off, let_go j k);
        parked = λ j k p. off;
        unmade = λ j k p. ground (arith, unmade j k, unmade i h);
        present = λ j k p. ground (arith, off, present j k);
        at_main = ground (arith, at_main, room, off);
      }

  exit-Inv :
      (i : ℕ)
      → i < n
      → s.pc i ≡ leaving
      → (s.main ≡ waiting_done → s.num_done + 1 < n)
      → Inv n (record s { num_done = s.num_done + 1; pc = put_at s.pc i exited })
  exit-Inv i h e room = record {
    arrived = ground (arith, arrived, number-put_at has_arrived n s.pc i exited h);
    left = ground (arith, left, number-put_at has_exited n s.pc i exited h);
    started = started;
    let_go = λ j k p. ground (arith, let_go j k, let_go i h);
    parked = λ j k p. ground (arith, parked j k);
    unmade = λ j k p. ground (arith, unmade j k, unmade i h);
    present = λ j k p. ground (arith, present j k);
    at_main = ground (arith, at_main, room);
  }

module _ {n : ℕ} {s : System} (inv : Inv n s) (i : ℕ) (h : i < n) where
  pub arrive-Inv : s.pc i ≡ entering → Inv n (arrive n i s)
  unfolding arrive
  arrive-Inv e = elim (Bool-cases (leb n (s.num_initialized + 1))) [
    | inl last ↦ rw last (enter-Inv (signal-Inv inv) i h (ap woken e) (λ m. ground arith))
    | inr early ↦ rw early (enter-Inv inv i h e (λ m. ground arith))
  ]

  woken-put_at :
      (pc : ℕ → Worker) → (λ j. woken (put_at pc i exited j)) ≡ put_at (λ j. woken (pc j)) i exited
  woken-put_at pc = fun_ext λ j. ground arith

  pub leave-Inv : s.pc i ≡ leaving → Inv n (leave n i s)
  unfolding leave
  leave-Inv e = elim (Bool-cases (leb n (s.num_done + 1))) [
    | inl last ↦
        rw (last, woken-put_at s.pc)
          (exit-Inv (signal-Inv inv) i h (ap woken e) (λ m. ground arith))
    | inr early ↦ rw early (exit-Inv inv i h e (λ m. ground arith))
  ]

  pub test_start-Inv : s.pc i ≡ signalled → Inv n (test_start i s)
  test_start-Inv e = elim (Bool-cases s.start) [
    | inl on ↦
        subst (λ b. Inv n (record s { pc = put_at s.pc i (if b then running else waiting) }))
          (sym on)
          (move-Inv inv i running h (λ q. cc) (λ q. cc) (ground arith) (ground arith) (λ q. on)
            (λ q. cc))
    | inr off ↦
        subst (λ b. Inv n (record s { pc = put_at s.pc i (if b then running else waiting) }))
          (sym off)
          (move-Inv inv i waiting h (λ q. cc) (λ q. cc) (ground arith) (ground arith) (λ q. cc)
            (λ q. off))
  ]
