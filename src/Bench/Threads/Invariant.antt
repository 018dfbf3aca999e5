-- ===== src/Bench/Threads/Invariant.antt =====
-- What the counters and the flag say of the threads; true at the start and kept by every step.
mod MainMoves
mod WorkerMoves
pub mod Steps
use mathlib.Core.Path.{fun_ext, subst}
use native.Mathlib.Decide.{dec_lt}
use mss_kv_lab.Base.{
  ℕ, zero, suc, ◌+◌, ◌≤◌, ◌<◌, ◌≡◌, ◌≢◌, refl, sym, ap, ◌∙◌, Bool, true, false, ◌==◌, leb, ltb,
  ltb→lt, ltb→le, if◌then◌else◌, arith, Bool-cases, inl, inr,
}
use mss_kv_lab.Bench.Threads.{
  Worker, absent, entering, waiting, signalled, running, leaving, exited, Main, creating,
  waiting_init, signalled_init, waiting_done, signalled_done, reporting, System, initial, put_at,
  woken, woken_main, signal_all_if, create, test_start, arrive, finish, leave, test_done, test_init,
  Move, Wake, Step, move, spurious, step_create, step_lock, step_init, step_done, step_arrive,
  step_test, step_finish, step_leave, wake, wake_init, wake_done, Reach, begin, next,
}
use mss_kv_lab.Bench.Threads.Count.{number, number_ext, number-put_at, number-absent, number_full}

-- past the first critical section, and past the second
abbrev pub has_arrived : Worker → ℕ
has_arrived absent = 0
has_arrived entering = 0
has_arrived _ = 1

abbrev pub has_exited : Worker → ℕ
has_exited exited = 1
has_exited _ = 0

-- let go by the main thread
abbrev pub is_let_go : Worker → Bool
is_let_go running = true
is_let_go leaving = true
is_let_go exited = true
is_let_go _ = false

-- how many threads have been created
abbrev pub made : ℕ → Main → ℕ
made n (creating k) = k
made n _ = n

abbrev pub MainAt : ℕ → System → Main → Type 0
MainAt n s (creating k) = (k ≤ n) × (s.start ≡ false)
MainAt n s waiting_init = (s.start ≡ false) × (s.num_initialized < n)
MainAt n s signalled_init = s.start ≡ false
MainAt n s waiting_done = (s.start ≡ true) × (s.num_done < n)
MainAt n s signalled_done = s.start ≡ true
MainAt n s reporting = (s.start ≡ true) × (n ≤ s.num_done)

pub record Inv (n : ℕ) (s : System) : Type 0 where
  pub arrived : s.num_initialized ≡ number has_arrived n s.pc
  pub left : s.num_done ≡ number has_exited n s.pc
  pub started : s.start ≡ true → n ≤ s.num_initialized
  pub let_go : (j : ℕ) → j < n → is_let_go (s.pc j) ≡ true → s.start ≡ true
  pub parked : (j : ℕ) → j < n → s.pc j ≡ waiting → s.start ≡ false
  pub unmade : (j : ℕ) → j < n → made n s.main ≤ j → s.pc j ≡ absent
  pub present : (j : ℕ) → j < n → j < made n s.main → s.pc j ≢ absent
  pub at_main : MainAt n s s.main

pub Inv-initial : (n : ℕ) → Inv n initial
unfolding initial
Inv-initial n = record {
  arrived = omega (arith, number-absent has_arrived n refl);
  left = omega (arith, number-absent has_exited n refl);
  started = λ e. cc;
  let_go = λ j h e. cc;
  parked = λ j h e. cc;
  unmade = λ j h k. refl;
  present = λ j h k. absurd (omega arith);
  at_main = (omega arith, refl);
}
