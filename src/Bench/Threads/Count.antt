-- ===== src/Bench/Threads/Count.antt =====
-- How many of the first n threads are in a set of states, given by a weight of 0 or 1.
use mss_kv_lab.Base.{ℕ, zero, suc, ◌+◌, ◌≤◌, ◌<◌, ◌≡◌, refl, arith}
use native.Mathlib.Decide.{dec_lt, ℕ_discrete}
use mss_kv_lab.Bench.Threads.{Worker, absent, put_at}

unfoldable pub number : (Worker → ℕ) → ℕ → (ℕ → Worker) → ℕ
number w zero pc = 0
number w (suc n) pc = w (pc n) + number w n pc

module _ (w : Worker → ℕ) where
  pub number_ext :
      (n : ℕ) (pc pc' : ℕ → Worker)
      → ((j : ℕ) → j < n → w (pc j) ≡ w (pc' j))
      → number w n pc ≡ number w n pc'
  unfolding number
  number_ext zero pc pc' same = refl
  number_ext (suc n) pc pc' same =
      omega (arith, same n (omega arith), number_ext n pc pc' (λ j h. same j (omega arith)))

  pub number-absent : (n : ℕ) → w absent ≡ 0 → number w n (λ j. absent) ≡ 0
  unfolding number
  number-absent zero h = refl
  number-absent (suc n) h = omega (arith, h, number-absent n h)

  pub number-put_at :
      (n : ℕ) (pc : ℕ → Worker) (i : ℕ) (p : Worker)
      → i < n
      → number w n (put_at pc i p) + w (pc i) ≡ number w n pc + w p
  unfolding number
  number-put_at zero pc i p h = absurd (omega arith)
  number-put_at (suc n) pc i p h = elim (dec_lt i n) [
    | yes below ↦ ground (arith, number-put_at n pc i p below)
    | no last ↦ ground (arith, number_ext n (put_at pc i p) pc (λ j h. ground arith))
  ]

  pub number-le : ((p : Worker) → w p ≤ 1) → (n : ℕ) (pc : ℕ → Worker) → number w n pc ≤ n
  unfolding number
  number-le small zero pc = omega arith
  number-le small (suc n) pc = omega (arith, small (pc n), number-le small n pc)

  -- A full count leaves nobody out, and a count below n leaves somebody out.
  pub number_full :
      ((p : Worker) → w p ≤ 1)
      → (n : ℕ) (pc : ℕ → Worker) → n ≤ number w n pc
      → (j : ℕ) → j < n
      → w (pc j) ≡ 1
  unfolding number
  number_full small zero pc full j h = absurd (omega arith)
  number_full small (suc n) pc full j h =
      let bound = number-le small n pc in
      elim (dec_lt j n) [
        | yes below ↦ number_full small n pc (omega (arith, bound, small (pc n))) j below
        | no last ↦ ground (arith, bound, small (pc n))
      ]

  pub number_short :
      (n : ℕ) (pc : ℕ → Worker) → number w n pc < n → (j : ℕ) × (j < n) × (w (pc j) ≡ 0)
  unfolding number
  number_short zero pc short = absurd (omega arith)
  number_short (suc n) pc short = elim (ℕ_discrete (w (pc n)) 0) [
    | yes none ↦ (n, omega arith, none)
    | no some ↦ let (j, below, none) = number_short n pc (omega arith) in (j, omega arith, none)
  ]
