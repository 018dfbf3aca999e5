-- ===== src/Bench/Parallel/Barriers/Termination.antt =====
-- `RunBenchmark` comes to its end.
use native.Mathlib.Decide.{dec_lt}
use mss_kv_lab.Base.{ℕ, zero, suc, ◌+◌, ◌-◌, ◌*◌, ◌≤◌, ◌<◌, ◌≡◌, ◌⊎◌, inl, inr, arith}
use mss_kv_lab.Base.Result.{fault, runtime_error}
use mss_kv_lab.Kv.{Pmkv}
use mss_kv_lab.Bench.Threads.{System, initial, running, reporting}
use mss_kv_lab.Bench.Threads.Invariant.Steps.{Reach-Inv}
use mss_kv_lab.Bench.Threads.Termination.{steps_left, Move-steps_left, steps_left-initial}
use mss_kv_lab.Bench.Workload.{Config}
use mss_kv_lab.Bench.Workload.Outcome.{Refuses}
use mss_kv_lab.Bench.Parallel.{Task, Machine, rounds, set_at, Shared, turn, all_started}
use mss_kv_lab.Bench.Parallel.Turns.{turn-index_suc}
use mss_kv_lab.Bench.Parallel.Keys.{total, total_ext, total-const}
use mss_kv_lab.Bench.Parallel.Barriers.{
  JointMove, move_sync, move_work, JointReach, joint_begin, joint_next, joint_move, JointRun,
  run_begin, run_next,
}
use mss_kv_lab.Bench.Parallel.Barriers.Joined.{JointReach-Reach}
use mss_kv_lab.Bench.Parallel.Barriers.Progress.{never_stuck}

-- A round of thread t takes one from the rounds that are left.
total-left :
    (r n : ℕ) (f g : ℕ → ℕ) (t : ℕ)
    → t < n
    → f t < r
    → ((u : ℕ) → g u ≡ set_at f t (suc (f t)) u)
    → suc (total n (λ u. r - g u)) ≡ total n (λ u. r - f u)
unfolding total
total-left r zero f g t h left same = absurd (omega arith)
total-left r (suc n) f g t h left same = elim (dec_lt t n) [
  | yes below ↦ ground (arith, total-left r n f g t below left same, same n)
  | no last ↦
      ground
        (arith, total_ext n (λ u. r - g u) (λ u. r - f u) (λ u h. ground (arith, same u)), same n)
]

module _ (kv : Pmkv) (cfg : Config) (m : Machine) (n : ℕ) (task : Task) where
  -- The steps and the rounds that are left.
  all_left : System → Shared kv cfg m → ℕ
  all_left s d = steps_left n s + total n (λ t. rounds kv cfg m task - d.index t)

  module _ (store : kv.Store) where
    JointMove-all_left :
        {s s' : System} {d d' : Shared kv cfg m}
        → JointReach kv cfg m n task store s d
        → JointMove kv cfg m n task s d s' d'
        → all_left s' d' < all_left s d
    unfolding all_left
    JointMove-all_left r (move_sync mv over) =
        omega (arith, Move-steps_left mv (Reach-Inv (JointReach-Reach kv cfg m n task store r)))
    JointMove-all_left {s} {s'} {d} {d'} r (move_work i h at left e) = omega (
      arith,
      total-left (rounds kv cfg m task) n d.index d'.index i h left
          (turn-index_suc kv cfg m n task i d d' h left e),
    )

    pub JointRun-JointReach :
        {k : ℕ} {s : System} {d : Shared kv cfg m}
        → JointRun kv cfg m n task store k s d
        → JointReach kv cfg m n task store s d
    JointRun-JointReach run_begin = joint_begin
    JointRun-JointReach (run_next r mv) = joint_next (JointRun-JointReach r) (joint_move mv)

    -- What is done and what is left add up to no more than what was left at first.
    run-all_left :
        {k : ℕ} {s : System} {d : Shared kv cfg m}
        → JointRun kv cfg m n task store k s d
        → k + all_left s d ≤ all_left initial (all_started kv cfg m task store)
    run-all_left run_begin = omega arith
    run-all_left (run_next r mv) =
        omega (arith, run-all_left r, JointMove-all_left (JointRun-JointReach r) mv)

    -- Without wake-ups that no signal caused, `RunBenchmark` of n threads, with a loop of r rounds
    -- each, has come to its report after n * (r + 10) + 12 steps at the latest, whatever the order
    -- of the steps: no run is longer, and one that has not come there goes on with a further step,
    -- but for a thread that throws since the put of an entry is refused.
    pub run_ends :
        (k : ℕ) (s : System) (d : Shared kv cfg m)
        → JointRun kv cfg m n task store k s d
        → (k ≤ n * (rounds kv cfg m task + 10) + 12)
          × ((s.main ≡ reporting)
              ⊎ (((s' : System) × (d' : Shared kv cfg m) × JointRun kv cfg m n task store
                      (suc k)
                      s'
                      d')
                  ⊎ ((i : ℕ) × (i < n)
                      × (s.pc i ≡ running)
                      × Refuses kv
                      × (turn kv cfg m n task i d ≡ fault runtime_error))))
    unfolding all_left
    run_ends k s d r =
        let used = run-all_left r in
        let sync = steps_left-initial n in
        let work =
          total-const n (rounds kv cfg m task)
            (λ t. rounds kv cfg m task - (all_started kv cfg m task store).index t)
            (λ t h. omega arith) in
        (
          omega (arith, used, sync, work),
          elim (never_stuck kv cfg m n task store s d (JointRun-JointReach r)) [
            | inl e ↦ inl e
            | inr (inl (s', d', mv)) ↦ inr (inl (s', d', run_next r mv))
            | inr (inr refused) ↦ inr (inr refused)
          ],
        )
