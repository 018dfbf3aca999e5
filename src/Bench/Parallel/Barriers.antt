-- ===== src/Bench/Parallel/Barriers.antt =====
-- The barriers of `ThreadBody` and `RunBenchmark` (Bench/Threads.antt) together with the rounds that
-- the threads do between them: a thread works while it is `running`, and leaves its method when
-- its loop is over.
pub mod Joined
pub mod Progress
pub mod Termination
mod Tests
use mss_kv_lab.Base.{suc, ℕ, ◌+◌, ◌≤◌, ◌<◌, ◌≡◌, ◌⊎◌, inl, inr, List, [], ◌∷◌, ◌++◌, arith}
use mss_kv_lab.Base.Result.{done}
use mss_kv_lab.Kv.{Pmkv}
use mss_kv_lab.Bench.Threads.{System, initial, Move, Wake, Worker, running, leaving}
use mss_kv_lab.Bench.Workload.{Config}
use mss_kv_lab.Bench.Parallel.{Task, Machine, rounds, Shared, turn, all_started}

module _ (kv : Pmkv) (cfg : Config) (m : Machine) (n : ℕ) (task : Task) where
  -- A thread that comes to `leaving` has no round left.
  abbrev pub LoopsOver : Shared kv cfg m → System → System → Type 0
  LoopsOver d s s' =
      (i : ℕ) → i < n → s'.pc i ≡ leaving → (s.pc i ≡ leaving) ⊎ (rounds kv cfg m task ≤ d.index i)

  -- One step of one thread: of the synchronization, or a round of its loop.
  pub data JointMove (s : System) (d : Shared kv cfg m) : System → Shared kv cfg m → Type 0 where
    move_sync : {s' : System} → Move n s s' → LoopsOver d s s' → JointMove s d s' d
    move_work :
        (i : ℕ) {d' : Shared kv cfg m}
        → i < n
        → s.pc i ≡ running
        → d.index i < rounds kv cfg m task
        → turn kv cfg m n task i d ≡ done d'
        → JointMove s d s d'

  -- A step, or a wake-up without a signal.
  pub data JointStep (s : System) (d : Shared kv cfg m) : System → Shared kv cfg m → Type 0 where
    joint_move : {s' : System} {d' : Shared kv cfg m} → JointMove s d s' d' → JointStep s d s' d'
    joint_wake : {s' : System} → Wake n s s' → JointStep s d s' d

  -- The states that `RunBenchmark` can come to on a store.
  pub data JointReach (store : kv.Store) : System → Shared kv cfg m → Type 0 where
    joint_begin : JointReach store initial (all_started kv cfg m task store)
    joint_next :
        {s s' : System} {d d' : Shared kv cfg m}
        → JointReach store s d
        → JointStep s d s' d'
        → JointReach store s' d'

  -- What it can come to in k steps without such a wake-up.
  pub data JointRun (store : kv.Store) : ℕ → System → Shared kv cfg m → Type 0 where
    run_begin : JointRun store 0 initial (all_started kv cfg m task store)
    run_next :
        {k : ℕ} {s s' : System} {d d' : Shared kv cfg m}
        → JointRun store k s d
        → JointMove s d s' d'
        → JointRun store (suc k) s' d'
