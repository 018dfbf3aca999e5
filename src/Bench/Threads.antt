-- ===== src/Bench/Threads.antt =====
-- `RunBenchmark` and `ThreadBody` of bench/bench.cc: one main thread and n workers that meet at a
-- mutex and a condition variable. What a thread does while it holds the mutex is one step; a
-- thread in `cv.Wait` has released the mutex.
mod Count
pub mod Invariant
pub mod Progress
pub mod Exits
pub mod Termination
mod Tests
use mss_kv_lab.Base.{ℕ, suc, ◌+◌, ◌≤◌, ◌<◌, ◌≡◌, Bool, true, false, leb, ltb, ◌==◌, if◌then◌else◌}

-- Where a worker stands.
pub data Worker : Type 0 where
  absent : Worker  -- not yet started by `StartThread`
  entering : Worker  -- before the first `MutexLock`
  waiting : Worker  -- in `shared->cv.Wait()`
  signalled : Worker  -- woken in `Wait`, about to test `shared->start` again
  running : Worker  -- in the benchmark's method
  leaving : Worker  -- after it, before the second `MutexLock`
  exited : Worker

-- Where `RunBenchmark` stands.
pub data Main : Type 0 where
  creating : ℕ → Main  -- in the first loop, at round i
  waiting_init : Main  -- in `Wait`, for `num_initialized`
  signalled_init : Main
  waiting_done : Main  -- in `Wait`, for `num_done`
  signalled_done : Main
  reporting : Main  -- after `shared.mu.Unlock()`

-- `SharedState`, without `total`, which is the number n of threads.
pub record System : Type 0 where
  pub num_initialized : ℕ
  pub num_done : ℕ
  pub start : Bool
  pub main : Main
  pub pc : ℕ → Worker

unfoldable pub initial : System
initial = record {
  num_initialized = 0;
  num_done = 0;
  start = false;
  main = creating 0;
  pc = λ i. absent;
}

abbrev pub put_at : (ℕ → Worker) → ℕ → Worker → ℕ → Worker
put_at pc i p j = if i == j then p else pc j

-- What `SignalAll` does to a thread.
abbrev pub woken : Worker → Worker
woken waiting = signalled
woken p = p

abbrev pub woken_main : Main → Main
woken_main waiting_init = signalled_init
woken_main waiting_done = signalled_done
woken_main p = p

-- `if (test) shared->cv.SignalAll();`
abbrev pub signal_all_if : Bool → System → System
signal_all_if true s = record s { main = woken_main s.main; pc = λ j. woken (s.pc j) }
signal_all_if false s = s

-- `StartThread(ThreadBody, &arg[i])`
unfoldable pub create : ℕ → System → System
create i s = record s { main = creating (suc i); pc = put_at s.pc i entering }

-- `while (!shared->start) shared->cv.Wait();`, up to a wait or the loop's end.
abbrev pub test_start : ℕ → System → System
test_start i s = record s { pc = put_at s.pc i (if s.start then running else waiting) }

-- The first critical section of `ThreadBody`.
unfoldable pub arrive : ℕ → ℕ → System → System
arrive n i s =
    let num = s.num_initialized + 1 in
    test_start i (signal_all_if (leb n num) (record s { num_initialized = num }))

-- The method returns.
unfoldable pub finish : ℕ → System → System
finish i s = record s { pc = put_at s.pc i leaving }

-- The second critical section of `ThreadBody`.
unfoldable pub leave : ℕ → ℕ → System → System
leave n i s =
    let num = s.num_done + 1 in
    signal_all_if (leb n num) (record s { num_done = num; pc = put_at s.pc i exited })

-- `while (shared.num_done < n) shared.cv.Wait();`, up to a wait or the loop's end.
unfoldable pub test_done : ℕ → System → System
test_done n s = record s { main = if ltb s.num_done n then waiting_done else reporting }

-- `while (shared.num_initialized < n) shared.cv.Wait();`; at the loop's end the threads are let go.
unfoldable pub test_init : ℕ → System → System
unfolding test_done
test_init n s =
    if ltb s.num_initialized n
    then record s { main = waiting_init }
    else test_done n (signal_all_if true (record s { start = true }))

-- One step of one thread.
pub data Move (n : ℕ) (s : System) : System → Type 0 where
  step_create : (i : ℕ) → s.main ≡ creating i → i < n → Move n s (create i s)
  step_lock : s.main ≡ creating n → Move n s (test_init n s)
  step_init : s.main ≡ signalled_init → Move n s (test_init n s)
  step_done : s.main ≡ signalled_done → Move n s (test_done n s)
  step_arrive : (i : ℕ) → i < n → s.pc i ≡ entering → Move n s (arrive n i s)
  step_test : (i : ℕ) → i < n → s.pc i ≡ signalled → Move n s (test_start i s)
  step_finish : (i : ℕ) → i < n → s.pc i ≡ running → Move n s (finish i s)
  step_leave : (i : ℕ) → i < n → s.pc i ≡ leaving → Move n s (leave n i s)

-- A wake-up without a signal, which `Wait` may have at any time.
pub data Wake (n : ℕ) (s : System) : System → Type 0 where
  wake : (i : ℕ) → i < n → s.pc i ≡ waiting → Wake n s (record s { pc = put_at s.pc i signalled })
  wake_init : s.main ≡ waiting_init → Wake n s (record s { main = signalled_init })
  wake_done : s.main ≡ waiting_done → Wake n s (record s { main = signalled_done })

pub data Step (n : ℕ) (s t : System) : Type 0 where
  move : Move n s t → Step n s t
  spurious : Wake n s t → Step n s t

pub data Reach (n : ℕ) : System → Type 0 where
  begin : Reach n initial
  next : {s t : System} → Reach n s → Step n s t → Reach n t

-- `if (thread->shared->num_done + 1 >= thread->shared->num_initialized) break;` in `BGWriter`
pub writer_stops : System → Bool
writer_stops s = leb s.num_initialized (s.num_done + 1)
