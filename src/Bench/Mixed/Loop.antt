-- ===== src/Bench/Mixed/Loop.antt =====
-- The loop of `ReadRandomWriteRandom`, for any property that its rounds keep.
use mss_kv_lab.Base.{
  ℕ, zero, suc, ◌+◌, ◌≤◌, ◌<◌, ◌≡◌, refl, ap, ◌∙◌, ◌⊎◌, inl, inr, arith, Option, some, Bytes, ltb,
  Bool-cases,
}
use mathlib.Core.Path.{subst}
use mss_kv_lab.Base.Int.{ℤ, pos}
use mss_kv_lab.Base.Result.{Result, done, fault, runtime_error}
use mss_kv_lab.Kv.{Pmkv}
use mss_kv_lab.Bench.Workload.{Config}
use mss_kv_lab.Bench.Mixed.{Duration, Mixed, is_done, mixed_round, mixed_loop}

-- `Done(1)` without a limit of time.
is_done_lem :
    (d : Duration)
    → d.max_seconds ≡ 0
    → let (stop, d') = is_done d (pos 1) 0 in
      (stop ≡ ltb d.max_ops (d.ops + 1))
      × (d'.max_seconds ≡ 0)
      × (d'.max_ops ≡ d.max_ops)
      × (d'.ops ≡ d.ops + 1)
unfolding is_done
is_done_lem d e = (rw e refl, e, refl, refl)

module _ (kv : Pmkv) (cfg : Config) (percent : ℤ) (text : ℕ → ℕ → ℕ → ℕ → Bytes) (readwrites : ℕ)
    (CanThrow : Type 0) where
  -- The exception of a failed put, which takes `CanThrow`, or a state with the property that has the same clock.
  abbrev pub After : (ℕ → Mixed kv → Type 0) → ℕ → Mixed kv → Result (Mixed kv) → Type 0
  After I i s r =
      (CanThrow × (r ≡ fault runtime_error))
      ⊎ ((t : Mixed kv) × (r ≡ done t) × I i t × (t.limit ≡ s.limit))

  -- What the clock says before round i.
  pub record Timed (i : ℕ) (s : Mixed kv) : Type 0 where
    pub unlimited : s.limit.max_seconds ≡ 0
    pub max_ops : s.limit.max_ops ≡ readwrites
    pub ops : s.limit.ops ≡ i

  abbrev pub Finished : (ℕ → Mixed kv → Type 0) → Option (Result (Mixed kv)) → Type 0
  Finished I r =
      (CanThrow × (r ≡ some (fault runtime_error)))
      ⊎ ((t : Mixed kv) × (r ≡ some (done t)) × I readwrites t)

  -- With fuel for one round more than are left, the loop ends.
  pub mixed_loop-Finished :
      (I : ℕ → Mixed kv → Type 0)
      → ((i : ℕ) (s : Mixed kv) (d : Duration) → I i s → I i (record s { limit = d }))
      → ((i : ℕ) (s : Mixed kv)
          → I i s
          → After I (i + 1) s (mixed_round kv cfg percent text readwrites s))
      → (fuel i : ℕ) (s : Mixed kv) → I i s
      → Timed i s
      → i ≤ readwrites
      → readwrites < i + fuel
      → Finished I (mixed_loop kv cfg percent text readwrites fuel s)
  unfolding mixed_loop
  mixed_loop-Finished I relimit round zero i s ran timed le lt = absurd (omega arith)
  mixed_loop-Finished I relimit round (suc fuel) i s ran timed le lt =
      let s' : Mixed kv = record s { limit = (is_done s.limit (pos 1) 0).1 } in
      let ran' : I i s' = relimit i s (is_done s.limit (pos 1) 0).1 ran in
      let (test, unlimited, max_ops, ops) = is_done_lem s.limit timed.unlimited in
      elim (Bool-cases (is_done s.limit (pos 1) 0).0) [
        | inl stop ↦
            let last : i ≡ readwrites = ground (arith, test, timed.max_ops, timed.ops) in
            rw stop (inr (_, refl, subst (λ n. I n s') last ran'))
        | inr goes_on ↦ rw goes_on (elim (round i s' ran') [
          | inl (can, e) ↦ inl (can, rw e refl)
          | inr (t, e, ran_t, same) ↦ rw e (
              mixed_loop-Finished I relimit round fuel (i + 1) t ran_t
                (record {
                  unlimited = ap (λ (d : Duration). d.max_seconds) same ∙ unlimited;
                  max_ops = ap (λ (d : Duration). d.max_ops) same ∙ (max_ops ∙ timed.max_ops);
                  ops = ap (λ (d : Duration). d.ops) same ∙ omega (arith, ops, timed.ops);
                })
                (ground (arith, test, timed.max_ops, timed.ops)) (omega arith))
        ])
      ]
