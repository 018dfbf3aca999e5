-- ===== src/Bench/Threads/Exits.antt =====
-- How a thread comes to the end of `ThreadBody`.
use mss_kv_lab.Base.{ℕ, ◌<◌, ◌≡◌, ◌⊎◌, inl, inr, arith}
use mss_kv_lab.Bench.Threads.{
  Wake, running, leaving, exited, System, create, arrive, finish, leave, test_done, test_init, Move,
  Step, move, spurious, step_create, step_lock, step_init, step_done, step_arrive, step_test,
  step_finish, step_leave, wake, wake_init, wake_done,
}

-- A thread comes to `exited` from `leaving` only.
pub exited-from :
    {n : ℕ} {s s' : System}
    → Step n s s'
    → (i : ℕ) → s'.pc i ≡ exited
    → (s.pc i ≡ leaving) ⊎ (s.pc i ≡ exited)
unfolding create arrive finish leave test_done test_init
exited-from (move (step_create k e h)) i p = ground arith
exited-from (move (step_lock e)) i p = ground arith
exited-from (move (step_init e)) i p = ground arith
exited-from (move (step_done e)) i p = ground arith
exited-from (move (step_arrive k h e)) i p = ground arith
exited-from (move (step_test k h e)) i p = ground arith
exited-from (move (step_finish k h e)) i p = ground arith
exited-from (move (step_leave k h e)) i p = ground arith
exited-from (spurious (wake k h e)) i p = ground arith
exited-from (spurious (wake_init e)) i p = inr p
exited-from (spurious (wake_done e)) i p = inr p

-- A move brings no thread to `leaving`, or it is the end of one thread's method.
pub Move-leaves :
    {n : ℕ} {s s' : System}
    → Move n s s'
    → ((i : ℕ) → s'.pc i ≡ leaving → s.pc i ≡ leaving)
      ⊎ ((k : ℕ) × (k < n)
          × (s.pc k ≡ running)
          × ((i : ℕ) → s'.pc i ≡ leaving → (s.pc i ≡ leaving) ⊎ (i ≡ k)))
unfolding create arrive finish leave test_done test_init
Move-leaves (step_create k e h) = inl (λ i p. ground arith)
Move-leaves (step_lock e) = inl (λ i p. ground arith)
Move-leaves (step_init e) = inl (λ i p. ground arith)
Move-leaves (step_done e) = inl (λ i p. ground arith)
Move-leaves (step_arrive k h e) = inl (λ i p. ground arith)
Move-leaves (step_test k h e) = inl (λ i p. ground arith)
Move-leaves (step_finish k h e) = inr (k, h, e, λ i p. ground arith)
Move-leaves (step_leave k h e) = inl (λ i p. ground arith)

-- A wake-up changes nobody that is leaving or has exited.
pub Wake-leaves :
    {n : ℕ} {s s' : System} → Wake n s s' → (i : ℕ) → s'.pc i ≡ leaving → s.pc i ≡ leaving
Wake-leaves (wake k h e) i p = ground arith
Wake-leaves (wake_init e) i p = p
Wake-leaves (wake_done e) i p = p
