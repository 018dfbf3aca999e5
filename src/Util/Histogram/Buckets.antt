-- ===== src/Util/Histogram/Buckets.antt =====
-- The buckets as a list of counts, and where a value goes.
use mathlib.Core.Path.{subst}
use native.Mathlib.Decide.{dec_lt}
use mss_kv_lab.Base.{ℕ, zero, suc, ◌+◌, ◌≤◌, ◌<◌, ◌≡◌, refl, ap, ap₂, List, [], ◌∷◌, arith}
use mss_kv_lab.Base.{Bool-cases, inl, inr, ◌==◌, if◌then◌else◌}
use mss_kv_lab.Base.{length, get_or, set, replicate}
use mss_kv_lab.Base.Int.{ℤ, pos, ◌≤ℤ◌, ◌<ℤ◌, leb_ℤ}
use mss_kv_lab.Util.Histogram.{bucket_limit, search, add_buckets}

abbrev pub limit : ℕ → ℤ
limit b = pos (get_or bucket_limit b 0)

-- Where the loop stops: every limit before is passed, and the limit there is not, unless it is
-- the end.
pub record Stops (start end : ℕ) (limits : List ℕ) (value : ℤ) (b : ℕ) : Type 0 where
  pub lower : start ≤ b
  pub upper : b ≤ end
  pub passed : (i : ℕ) → start ≤ i → i < b → pos (get_or limits i 0) ≤ℤ value
  pub stopped : b < end → value <ℤ pos (get_or limits b 0)

pub search-Stops :
    (left b end : ℕ) (limits : List ℕ) (value : ℤ)
    → b + left ≡ end
    → Stops b end limits value (search left limits value b)
unfolding search
search-Stops zero b end limits value e = record {
  lower = omega arith;
  upper = omega arith;
  passed = λ i p q. absurd (omega arith);
  stopped = λ q. absurd (omega arith);
}
search-Stops (suc left) b end limits value e =
    elim (Bool-cases (leb_ℤ (pos (get_or limits b 0)) value)) [
      | inl more ↦
          let rest = search-Stops left (b + 1) end limits value (omega arith) in
          rw more (record {
            lower = omega (arith, rest.lower);
            upper = rest.upper;
            passed = λ i p q. elim (dec_lt b i) [
              | yes lt ↦ rest.passed i (omega arith) q
              | no ge ↦
                  let here : b ≡ i = omega arith in
                  subst (λ j. pos (get_or limits j 0) ≤ℤ value) here (ground arith)
            ];
            stopped = rest.stopped;
          })
      | inr stop ↦ rw stop (record {
        lower = omega arith;
        upper = omega arith;
        passed = λ i p q. absurd (omega arith);
        stopped = λ q. ground arith;
      })
    ]

abbrev pub total : List ℕ → ℕ
total [] = 0
total (x ∷ xs) = x + total xs

pub total-set_succ :
    (xs : List ℕ) (b : ℕ) → b < length xs → total (set xs b (get_or xs b 0 + 1)) ≡ total xs + 1
total-set_succ [] b h = absurd (omega arith)
total-set_succ (x ∷ xs) zero h = omega arith
total-set_succ (x ∷ xs) (suc b) h = omega (arith, total-set_succ xs b (omega arith))

pub add_buckets-set :
    (xs ys : List ℕ) (b : ℕ)
    → length xs ≡ length ys
    → add_buckets xs (set ys b (get_or ys b 0 + 1))
      ≡ set (add_buckets xs ys) b (get_or (add_buckets xs ys) b 0 + 1)
add_buckets-set [] ys b h = refl
add_buckets-set (x ∷ xs) [] b h = absurd (omega arith)
add_buckets-set (x ∷ xs) (y ∷ ys) zero h = ap (λ n. n ∷ add_buckets xs ys) (omega arith)
add_buckets-set (x ∷ xs) (y ∷ ys) (suc b) h =
    ap (λ l. (x + y) ∷ l) (add_buckets-set xs ys b (omega arith))

pub add_buckets-zero : (n : ℕ) (xs : List ℕ) → add_buckets xs (replicate n 0) ≡ xs
add_buckets-zero n [] = refl
add_buckets-zero zero (x ∷ xs) = refl
add_buckets-zero (suc n) (x ∷ xs) = ap₂ ◌∷◌ (omega arith) (add_buckets-zero n xs)

pub length-add_buckets : (xs ys : List ℕ) → length (add_buckets xs ys) ≡ length xs
length-add_buckets [] ys = refl
length-add_buckets (x ∷ xs) [] = refl
length-add_buckets (x ∷ xs) (y ∷ ys) = ap suc (length-add_buckets xs ys)

pub total-add_buckets :
    (xs ys : List ℕ) → length xs ≡ length ys → total (add_buckets xs ys) ≡ total xs + total ys
total-add_buckets [] [] h = refl
total-add_buckets [] (y ∷ ys) h = absurd (omega arith)
total-add_buckets (x ∷ xs) [] h = absurd (omega arith)
total-add_buckets (x ∷ xs) (y ∷ ys) h = omega (arith, total-add_buckets xs ys (omega arith))

pub get_or-set_succ :
    (xs : List ℕ) (b i : ℕ)
    → b < length xs
    → get_or (set xs b (get_or xs b 0 + 1)) i 0 ≡ get_or xs i 0 + (if b == i then 1 else 0)
get_or-set_succ [] b i h = absurd (omega arith)
get_or-set_succ (x ∷ xs) zero zero h = refl
get_or-set_succ (x ∷ xs) zero (suc i) h = ground arith
get_or-set_succ (x ∷ xs) (suc b) zero h = ground arith
get_or-set_succ (x ∷ xs) (suc b) (suc i) h = ground (arith, get_or-set_succ xs b i)
