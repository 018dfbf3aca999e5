-- ===== src/Bench/Parallel/Turns.antt =====
-- Schedules: what holds after any number of turns, and how far each thread has come.
use mathlib.Core.Path.{subst}
use mss_kv_lab.Base.{
  ◌⊎◌, sym, ap, ℕ, ◌+◌, ◌≤◌, ◌<◌, min, ◌≡◌, refl, ◌∙◌, inl, inr, List, [], ◌∷◌, Bool-cases, ltb,
  ◌==◌, ◌&&◌, if◌then◌else◌, arith, suc,
}
use mss_kv_lab.Base.Result.{done, >>=-eq-ok}
use mss_kv_lab.Kv.{Pmkv}
use mss_kv_lab.Bench.Workload.{Config, Worker}
use mss_kv_lab.Bench.Workload.Outcome.{Ends, Ends-bind}
use mss_kv_lab.Bench.Parallel.{
  set_at, Task, Machine, rounds, round, Shared, view, advanced, take_round, turn, run_turns,
  all_started,
}

-- How many turns a schedule gives thread t.
abbrev pub turns : ℕ → List ℕ → ℕ
turns t [] = 0
turns t (u ∷ us) = (if u == t then 1 else 0) + turns t us

module _ (kv : Pmkv) (cfg : Config) (m : Machine) (n : ℕ) (task : Task) where
  abbrev System : Type 0
  System = Shared kv cfg m

  pub record Advance (t : ℕ) (s s' : System) : Type 0 where
    pub after : Worker kv
    pub there : t < n
    pub left : s.index t < rounds kv cfg m task
    pub ran : round kv cfg m task t (s.index t) (view kv cfg m t s) ≡ done after
    pub now : s' ≡ advanced kv cfg m t s after

  -- A turn that returns is a round of the thread, or none was left.
  turn-cases :
      (t : ℕ) (s s' : System)
      → turn kv cfg m n task t s ≡ done s'
      → Advance t s s' ⊎ ((t < n → rounds kv cfg m task ≤ s.index t) × (s' ≡ s))
  unfolding turn
  turn-cases t s s' e = elim (Bool-cases (ltb t n && ltb (s.index t) (rounds kv cfg m task))) [
    | inl go ↦
        let ran : take_round kv cfg m n task t s ≡ done s' =
          sym (ap (λ b. if b then take_round kv cfg m n task t s else done s) go) ∙ e in
        let (w, one, now) =
          >>=-eq-ok (round kv cfg m task t (s.index t) (view kv cfg m t s)) _ ran in
        inl
          (record { after = w; there = ground arith; left = ground arith; ran = one; now = cc now })
    | inr stay ↦
        let kept : done s ≡ done s' =
          sym (ap (λ b. if b then take_round kv cfg m n task t s else done s) stay) ∙ e in
        inr ((λ h. ground arith), cc kept)
  ]

  module _ (P : System → Type 0)
      (step : (t : ℕ) (s : System) (w : Worker kv)
        → t < n
        → s.index t < rounds kv cfg m task
        → round kv cfg m task t (s.index t) (view kv cfg m t s) ≡ done w
        → P s
        → P (advanced kv cfg m t s w)) where
    pub turn-keeps : (t : ℕ) (s s' : System) → turn kv cfg m n task t s ≡ done s' → P s → P s'
    turn-keeps t s s' e p = elim (turn-cases t s s' e) [
      | inl a ↦ subst P (sym a.now) (step t s a.after a.there a.left a.ran p)
      | inr (_, same) ↦ subst P (sym same) p
    ]

    pub run_turns-keeps :
        (ts : List ℕ) (s s' : System) → run_turns kv cfg m n task ts s ≡ done s' → P s → P s'
    unfolding run_turns
    run_turns-keeps [] s s' e p = let same : s ≡ s' = cc e in subst P same p
    run_turns-keeps (t ∷ ts) s s' e p =
        let (s1, first, rest) = >>=-eq-ok (turn kv cfg m n task t s) _ e in
        run_turns-keeps ts s1 s' rest (turn-keeps t s s1 first p)

  turn-index :
      (t u : ℕ) (s s' : System)
      → t < n
      → turn kv cfg m n task u s ≡ done s'
      → min (rounds kv cfg m task) (s'.index t)
        ≡ min (rounds kv cfg m task) (s.index t + (if u == t then 1 else 0))
  turn-index t u s s' h e = elim (turn-cases u s s' e) [
    | inl a ↦ rw a.now ground arith
    | inr (over, same) ↦ rw same ground arith
  ]

  -- A turn takes no round back.
  pub turn-grows :
      (u t : ℕ) (s s' : System) → turn kv cfg m n task u s ≡ done s' → s.index t ≤ s'.index t
  turn-grows u t s s' e = elim (turn-cases u s s' e) [
    | inl a ↦ rw a.now ground arith
    | inr (over, same) ↦ rw same omega arith
  ]

  pub turn-index_suc :
      (t : ℕ) (s s' : System)
      → t < n
      → s.index t < rounds kv cfg m task
      → turn kv cfg m n task t s ≡ done s'
      → (u : ℕ) → s'.index u ≡ set_at s.index t (suc (s.index t)) u
  turn-index_suc t s s' h left e u = elim (turn-cases t s s' e) [
    | inl a ↦ ap (λ (x : System). x.index u) a.now
    | inr (over, same) ↦ absurd (omega (arith, over h, left))
  ]

  -- After a schedule each thread has had its turns, up to the rounds of its loop.
  pub run_turns-index :
      (t : ℕ) (ts : List ℕ) (s s' : System)
      → t < n
      → run_turns kv cfg m n task ts s ≡ done s'
      → min (rounds kv cfg m task) (s'.index t)
        ≡ min (rounds kv cfg m task) (s.index t + turns t ts)
  unfolding run_turns
  run_turns-index t [] s s' h e = let same : s ≡ s' = cc e in rw (← same) omega arith
  run_turns-index t (u ∷ us) s s' h e =
      let (s1, first, rest) = >>=-eq-ok (turn kv cfg m n task u s) _ e in
      let one = turn-index t u s s1 h first in
      let more = run_turns-index t us s1 s' h rest in omega (arith, one, more)

  -- No thread does more rounds than its loop has.
  InLoop : System → Type 0
  InLoop s = (t : ℕ) → s.index t ≤ rounds kv cfg m task

  run_turns-InLoop :
      (ts : List ℕ) (s s' : System)
      → run_turns kv cfg m n task ts s ≡ done s'
      → InLoop s
      → InLoop s'
  unfolding InLoop
  run_turns-InLoop =
      run_turns-keeps InLoop (λ t s w there left ran before u. ground (arith, before u, left))

  -- A schedule gives each of the n threads the turns that its loop needs.
  abbrev pub IsEnough : List ℕ → Type 0
  IsEnough schedule = (t : ℕ) → t < n → rounds kv cfg m task ≤ turns t schedule

  -- After such a schedule each thread has come to the end of its loop.
  pub run_turns-finished :
      (schedule : List ℕ) (store : kv.Store) (s : System) (t : ℕ)
      → t < n
      → IsEnough schedule
      → run_turns kv cfg m n task schedule (all_started kv cfg m task store) ≡ done s
      → s.index t ≡ rounds kv cfg m task
  unfolding InLoop
  run_turns-finished schedule store s t h enough ran =
      let at_end = run_turns-index t schedule (all_started kv cfg m task store) s h ran in
      let within =
        run_turns-InLoop schedule (all_started kv cfg m task store) s ran (λ u. omega arith) in
      omega (arith, at_end, within t, enough t h)

  module _ (round-Ends : (t i : ℕ) (w : Worker kv) → Ends kv (round kv cfg m task t i w)) where
    pub turn-Ends : (t : ℕ) (s : System) → Ends kv (turn kv cfg m n task t s)
    unfolding turn
    turn-Ends t s = elim (Bool-cases (ltb t n && ltb (s.index t) (rounds kv cfg m task))) [
      | inl go ↦ rw go (
          Ends-bind kv (round kv cfg m task t (s.index t) (view kv cfg m t s))
            (λ w. done (advanced kv cfg m t s w)) (round-Ends t (s.index t) (view kv cfg m t s))
            (λ w. inr (_, refl)))
      | inr stay ↦ rw stay (inr (s, refl))
    ]

    pub run_turns-Ends : (ts : List ℕ) (s : System) → Ends kv (run_turns kv cfg m n task ts s)
    unfolding run_turns
    run_turns-Ends [] s = inr (s, refl)
    run_turns-Ends (t ∷ ts) s =
        Ends-bind kv (turn kv cfg m n task t s) (run_turns kv cfg m n task ts) (turn-Ends t s)
          (run_turns-Ends ts)

  module _
      (total : (t i : ℕ) (w : Worker kv)
        → (w' : Worker kv) × (round kv cfg m task t i w ≡ done w')) where
    turn-total : (t : ℕ) (s : System) → (s' : System) × (turn kv cfg m n task t s ≡ done s')
    unfolding turn
    turn-total t s = elim (Bool-cases (ltb t n && ltb (s.index t) (rounds kv cfg m task))) [
      | inl go ↦
          let (w, e) = total t (s.index t) (view kv cfg m t s) in
          (advanced kv cfg m t s w, rw (go, e) refl)
      | inr stay ↦ (s, rw stay refl)
    ]

    -- Where no round can fail, every schedule runs to its end.
    pub run_turns-total :
        (ts : List ℕ) (s : System) → (s' : System) × (run_turns kv cfg m n task ts s ≡ done s')
    unfolding run_turns
    run_turns-total [] s = (s, refl)
    run_turns-total (t ∷ ts) s =
        let (s1, first) = turn-total t s in
        let (s2, rest) = run_turns-total ts s1 in (s2, rw first rest)
