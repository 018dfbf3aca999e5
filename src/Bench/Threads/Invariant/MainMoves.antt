-- ===== src/Bench/Threads/Invariant/MainMoves.antt =====
-- The main thread's steps keep the invariant.
use mss_kv_lab.Base.{
  ℕ, ◌≤◌, ◌<◌, ◌≡◌, refl, ◌∙◌, true, false, ltb, ltb→lt, ltb→le, arith, Bool-cases, inl, inr,
}
use mss_kv_lab.Bench.Threads.{
  entering, creating, waiting_init, signalled_done, System, woken, signal_all_if, create, test_done,
  test_init,
}
use mss_kv_lab.Bench.Threads.Count.{number_ext, number-put_at}
use mss_kv_lab.Bench.Threads.Invariant.{has_arrived, has_exited, made, Inv}

module _ {n : ℕ} {s : System} (inv : Inv n s) where
  open inv use {arrived, left, started, let_go, parked, unmade, present, at_main}

  pub create-Inv : (i : ℕ) → s.main ≡ creating i → i < n → Inv n (create i s)
  unfolding create
  create-Inv i e h = record {
    arrived = ground (arith, arrived, number-put_at has_arrived n s.pc i entering h, unmade i h);
    left = ground (arith, left, number-put_at has_exited n s.pc i entering h, unmade i h);
    started = started;
    let_go = λ j k p. ground (arith, let_go j k);
    parked = λ j k p. ground (arith, parked j k);
    unmade = λ j k p. ground (arith, unmade j k);
    present = λ j k p. ground (arith, present j k);
    at_main = ground arith;
  }

  pub test_done-Inv : (s.main ≡ signalled_done) → Inv n (test_done n s)
  unfolding test_done
  test_done-Inv e = record {
    arrived = arrived;
    left = left;
    started = started;
    let_go = let_go;
    parked = parked;
    unmade = λ j k p. ground (arith, unmade j k);
    present = λ j k p. ground (arith, present j k);
    at_main = ground arith;
  }

  wait_init-Inv :
      made n s.main ≡ n
      → s.start ≡ false
      → s.num_initialized < n
      → Inv n (record s { main = waiting_init })
  wait_init-Inv whole off h = record {
    arrived = arrived;
    left = left;
    started = started;
    let_go = let_go;
    parked = parked;
    unmade = λ j k p. ground (arith, unmade j k);
    present = λ j k p. ground (arith, present j k);
    at_main = (off, h);
  }

  all_let_go-Inv :
      made n s.main ≡ n
      → n ≤ s.num_initialized
      → Inv n (test_done n (signal_all_if true (record s { start = true })))
  unfolding test_done
  all_let_go-Inv whole full = record {
    arrived = arrived ∙ number_ext has_arrived n s.pc (λ j. woken (s.pc j)) (λ j h. ground arith);
    left = left ∙ number_ext has_exited n s.pc (λ j. woken (s.pc j)) (λ j h. ground arith);
    started = λ e. full;
    let_go = λ j k p. refl;
    parked = λ j k p. ground arith;
    unmade = λ j k p. ground (arith, unmade j k);
    present = λ j k p. ground (arith, present j k);
    at_main = ground arith;
  }

  pub test_init-Inv : made n s.main ≡ n → s.start ≡ false → Inv n (test_init n s)
  unfolding test_init
  test_init-Inv whole off = elim (Bool-cases (ltb s.num_initialized n)) [
    | inl few ↦ rw few (wait_init-Inv whole off (ltb→lt s.num_initialized n few))
    | inr full ↦ rw full (all_let_go-Inv whole (ltb→le s.num_initialized n full))
  ]
  -- A thread moves within the same counts.
