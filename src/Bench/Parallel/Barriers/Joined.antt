-- ===== src/Bench/Parallel/Barriers/Joined.antt =====
-- What `RunBenchmark` can rely on when it reports.
use mss_kv_lab.Base.{ℕ, ◌≤◌, ◌<◌, ◌≡◌, refl, ap, ◌∙◌, ◌⊎◌, inl, inr, List, [], ◌∷◌, ◌++◌, arith}
use mss_kv_lab.Base.Result.{Result, done, >>=-eq-ok, ◌>>=◌}
use mss_kv_lab.Kv.{Pmkv}
use mss_kv_lab.Bench.Threads.{
  move, spurious, System, initial, leaving, exited, reporting, Reach, begin, next,
}
use mss_kv_lab.Bench.Threads.Progress.{join}
use mss_kv_lab.Bench.Threads.Exits.{exited-from, Wake-leaves}
use mss_kv_lab.Bench.Workload.{Config}
use mss_kv_lab.Bench.Parallel.{Task, Machine, rounds, Shared, turn, run_turns, all_started}
use mss_kv_lab.Bench.Parallel.Turns.{IsEnough, turn-grows, run_turns-index}
use mss_kv_lab.Bench.Parallel.Barriers.{
  JointStep, joint_move, joint_wake, move_sync, move_work, JointReach, joint_begin, joint_next,
}

module _ (kv : Pmkv) (cfg : Config) (m : Machine) (n : ℕ) (task : Task) where
  -- One turn more at the end of a schedule.
  run_turns-last :
      (ts : List ℕ) (t : ℕ) (d d1 d2 : Shared kv cfg m)
      → run_turns kv cfg m n task ts d ≡ done d1
      → turn kv cfg m n task t d1 ≡ done d2
      → run_turns kv cfg m n task (ts ++ (t ∷ [])) d ≡ done d2
  unfolding run_turns
  run_turns-last [] t d d1 d2 e last =
      let same : d ≡ d1 = cc e in
      ap (λ x. turn kv cfg m n task t x >>= (λ y. done y)) same
      ∙ ap (λ (r : Result (Shared kv cfg m)). r >>= (λ y. done y)) last
  run_turns-last (u ∷ us) t d d1 d2 e last =
      let (d', first, rest) = >>=-eq-ok (turn kv cfg m n task u d) _ e in
      ap (λ r. r >>= run_turns kv cfg m n task (us ++ (t ∷ []))) first
      ∙ run_turns-last us t d' d1 d2 rest last

  module _ (store : kv.Store) where
    -- What a state that can be reached says: how its store came about, and how far threads have
    -- come that have left their method.
    record Explained (s : System) (d : Shared kv cfg m) : Type 0 where
      pub sync : Reach n s
      pub schedule : List ℕ
      pub ran : run_turns kv cfg m n task schedule (all_started kv cfg m task store) ≡ done d
      pub left :
          (i : ℕ)
          → i < n
          → (s.pc i ≡ leaving) ⊎ (s.pc i ≡ exited)
          → rounds kv cfg m task ≤ d.index i

    Explained-step :
        {s s' : System} {d d' : Shared kv cfg m}
        → JointStep kv cfg m n task s d s' d'
        → Explained s d
        → Explained s' d'
    Explained-step (joint_move (move_sync mv over)) x = record {
      sync = next x.sync (move mv);
      schedule = x.schedule;
      ran = x.ran;
      left = λ i h p. elim p [
        | inl now ↦ elim (over i h now) [ inl was ↦ x.left i h (inl was) | inr no_more ↦ no_more ]
        | inr out ↦ x.left i h (exited-from (move mv) i out)
      ];
    }
    Explained-step {d = d} {d' = d'} (joint_move (move_work i h at left e)) x = record {
      sync = x.sync;
      schedule = x.schedule ++ (i ∷ []);
      ran = run_turns-last x.schedule i _ d d' x.ran e;
      left = λ j hj p. omega (arith, x.left j hj p, turn-grows kv cfg m n task i j d d' e);
    }
    Explained-step (joint_wake wk) x = record {
      sync = next x.sync (spurious wk);
      schedule = x.schedule;
      ran = x.ran;
      left = λ i h p. elim p [
        | inl now ↦ x.left i h (inl (Wake-leaves wk i now))
        | inr out ↦ x.left i h (exited-from (spurious wk) i out)
      ];
    }

    JointReach-Explained :
        {s : System} {d : Shared kv cfg m} → JointReach kv cfg m n task store s d → Explained s d
    unfolding run_turns initial
    JointReach-Explained joint_begin = record {
      sync = begin;
      schedule = [];
      ran = refl;
      left = λ i h p. elim p [ inl e ↦ cc e | inr e ↦ cc e ];
    }
    JointReach-Explained (joint_next r st) = Explained-step st (JointReach-Explained r)

    pub JointReach-Reach :
        {s : System} {d : Shared kv cfg m} → JointReach kv cfg m n task store s d → Reach n s
    JointReach-Reach r = (JointReach-Explained r).sync

    -- The state in which `RunBenchmark` comes to its report is one that a schedule leads to which
    -- gives each thread its rounds, so whatever holds after such schedules holds there.
    pub report-IsEnough :
        {s : System} {d : Shared kv cfg m}
        → JointReach kv cfg m n task store s d
        → s.main ≡ reporting
        → (schedule : List ℕ) × IsEnough kv cfg m n task schedule
          × (run_turns kv cfg m n task schedule (all_started kv cfg m task store) ≡ done d)
    report-IsEnough {s} {d} r e =
        let x = JointReach-Explained r in
        let (_, out) = join n s x.sync e in
        (
          x.schedule,
          λ t h. omega (
            arith,
            x.left t h (inr (out t h)),
            run_turns-index kv cfg m n task t x.schedule (all_started kv cfg m task store) d h
                x.ran,
          ),
          x.ran,
        )
