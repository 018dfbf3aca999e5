-- ===== src/Util/Histogram/Percentile/Laws.antt =====
-- Where a percentile lies.
use native.Mathlib.Nat.{mul-le-mul_left}
use mss_kv_lab.Base.{
  ℕ, zero, suc, ◌+◌, ◌-◌, ◌*◌, ◌≤◌, ◌<◌, ◌≡◌, refl, sym, ap, ◌∙◌, Bool, true, false, ◌&&◌, Option,
  some, List, [], ◌∷◌, length, get_or, take, ltb, leb, ◌==◌, arith, Bool-cases, inl, inr,
}
use mss_kv_lab.Base.Int.{ℤ, pos, negsuc, ◌≤ℤ◌}
use mss_kv_lab.Util.Histogram.{Histogram, bucket_limit}
use mss_kv_lab.Util.Histogram.Buckets.{total}
use mss_kv_lab.Util.Histogram.Merge.{IsCounted}
use mss_kv_lab.Util.Histogram.Percentile.{
  Value, nan, whole, ratio, Bucket, stop_at, scaled, at_least, at_most, ended, percentile, scale,
  threshold_of,
}

abbrev pub Above : ℤ → ℕ → ℕ → Type 0
Above (pos m) n d = m * d ≤ n
Above (negsuc m) n d = Unit

abbrev pub Below : ℤ → ℕ → ℕ → Type 0
Below (pos m) n d = n ≤ m * d
Below (negsuc m) n d = ⊥

-- The value is a number from m to k.
abbrev pub Between : ℤ → ℤ → Value → Type 0
Between m k nan = ⊥
Between m k (whole r) = (m ≤ℤ r) × (r ≤ℤ k)
Between m k (ratio n d) = (0 < d) × Above m n d × Below k n d

abbrev ascending : ℕ → List ℕ → Bool
ascending l [] = true
ascending l (r ∷ rs) = leb l r && ascending r rs

ascending-get_or :
    (l : ℕ) (rs : List ℕ) (i : ℕ)
    → ascending l rs ≡ true
    → i < length rs
    → get_or (l ∷ rs) i 0 ≤ get_or rs i 0
ascending-get_or l [] i h k = ground (arith, k)
ascending-get_or l (r ∷ rs) zero h k = ground (arith, h)
ascending-get_or l (r ∷ rs) (suc i) h k =
    ascending-get_or r rs i (ground (arith, h)) (omega (arith, k))

-- The bucket i of the counts cs is the first at which the sum reaches the threshold.
record Reached (t : ℕ) (cs ls : List ℕ) (left sum : ℕ) (r : Option Bucket) : Type 0 where
  place : ℕ
  bucket : Bucket
  result : r ≡ some bucket
  within : place < length cs
  left_is : bucket.left ≡ get_or (left ∷ ls) place 0
  right_is : bucket.right ≡ get_or ls place 0
  before : bucket.left_sum ≡ sum + total (take place cs)
  upto : bucket.left_sum + bucket.count ≡ sum + total (take (suc place) cs)
  short : bucket.left_sum * scale < t
  reached : t ≤ (bucket.left_sum + bucket.count) * scale

stop_at-Reached :
    (t : ℕ) (cs ls : List ℕ) (left sum : ℕ)
    → length cs ≤ length ls
    → sum * scale < t
    → t ≤ (sum + total cs) * scale
    → Reached t cs ls left sum (stop_at t cs ls left sum)
unfolding stop_at
stop_at-Reached t [] ls left sum fits low high = absurd (omega (arith, low, high))
stop_at-Reached t (c ∷ cs) [] left sum fits low high = absurd (omega (arith, fits))
stop_at-Reached t (c ∷ cs) (l ∷ ls) left sum fits low high =
    elim (Bool-cases (leb t ((sum + c) * scale))) [
      | inl e ↦ rw e (record {
        place = 0;
        bucket = record { left = left; right = l; left_sum = sum; count = c };
        result = refl;
        within = omega arith;
        left_is = refl;
        right_is = refl;
        before = omega arith;
        upto = omega arith;
        short = low;
        reached = ground (arith, e);
      })
      | inr e ↦
          let r =
            stop_at-Reached t cs ls l (sum + c) (omega (arith, fits)) (ground (arith, e))
              (omega (arith, high)) in
          rw e (record {
            place = suc r.place;
            bucket = r.bucket;
            result = r.result;
            within = omega (arith, r.within);
            left_is = r.left_is;
            right_is = r.right_is;
            before = omega (arith, r.before);
            upto = omega (arith, r.upto);
            short = r.short;
            reached = r.reached;
          })
    ]

upper : (l r w d y : ℕ) → r ≡ l + w → y ≤ w * d → l * d + y ≤ r * d
upper l r w d y e h = let same : r * d ≡ (l + w) * d = ap (λ a. a * d) e in omega (arith, same, h)

-- What the loop's arithmetic makes of the bucket it stops at.
scaled-Between :
    (t : ℕ) (b : Bucket)
    → b.left ≤ b.right
    → b.left_sum * scale < t
    → t ≤ (b.left_sum + b.count) * scale
    → (n : ℕ) × (d : ℕ) × (scaled t b ≡ ratio n d) × (0 < d) × (b.left * d ≤ n) × (n ≤ b.right * d)
unfolding scaled
scaled-Between t b h low high =
    let d = scale * b.count in
    let x = t - b.left_sum * scale in
    let real : (d == 0) ≡ false = ground (arith, low, high) in
    let part : (b.right - b.left) * x ≤ (b.right - b.left) * d =
      mul-le-mul_left (b.right - b.left) (omega (arith, low, high)) in
    (
      b.left * d + (b.right - b.left) * x,
      d,
      rw real refl,
      omega (arith, low, high),
      omega arith,
      upper b.left b.right (b.right - b.left) d _ (omega (arith, h)) part,
    )

whole-Between : (m k : ℤ) → m ≤ℤ k → Between m k (at_most k (whole m))
unfolding at_most
whole-Between m k h = ground (arith, h)

at_most-Between :
    (m : ℤ) (k n d : ℕ)
    → m ≤ℤ pos k
    → 0 < d
    → Above m n d
    → Between m (pos k) (at_most (pos k) (ratio n d))
unfolding at_most
at_most-Between m k n d h real above = elim (Bool-cases (ltb (k * d) n)) [
  | inl e ↦ rw e (h, omega arith)
  | inr e ↦ rw e (real, above, ground (arith, e))
]

lowest-Between :
    (m : ℤ) (k n d : ℕ) → m ≤ℤ negsuc k → Between m (negsuc k) (at_most (negsuc k) (ratio n d))
unfolding at_most
lowest-Between m k n d h = (h, omega arith)

clamped-Between :
    (m k : ℤ) (n d : ℕ) → m ≤ℤ k → 0 < d → Between m k (at_most k (at_least m (ratio n d)))
unfolding at_least
clamped-Between (pos m) (pos k) n d h real = elim (Bool-cases (ltb n (m * d))) [
  | inl e ↦ rw e (whole-Between (pos m) (pos k) h)
  | inr e ↦ rw e (at_most-Between (pos m) k n d h real (ground (arith, e)))
]
clamped-Between (pos m) (negsuc k) n d h real = absurd (omega (arith, h))
clamped-Between (negsuc m) (pos k) n d h real = at_most-Between (negsuc m) k n d h real tt
clamped-Between (negsuc m) (negsuc k) n d h real = lowest-Between (negsuc m) k n d h

-- In a histogram whose percentile p (in hundredths of a percent) has a threshold, as rounded, above
-- 0 and not above `num_`, the percentile is never 0 / 0 and lies between the extremes. There is a
-- bucket i such that the buckets before it hold fewer samples than the threshold, and those up to
-- it as many at least; the percentile is a fraction within the limits of that bucket, raised to the
-- minimum and lowered to the maximum. The threshold is a number of units of 1 / 2^70.
pub percentile_lem :
    (h : Histogram)
    → IsCounted h
    → h.min_value ≤ℤ h.max_value
    → (p : ℕ) → 0 < threshold_of h.num p
    → threshold_of h.num p ≤ h.num * scale
    → (i : ℕ) × (n : ℕ) × (d : ℕ) × (total (take i h.buckets) * scale < threshold_of h.num p)
      × (threshold_of h.num p ≤ total (take (suc i) h.buckets) * scale)
      × (get_or (0 ∷ bucket_limit) i 0 * d ≤ n)
      × (n ≤ get_or bucket_limit i 0 * d)
      × (percentile h p ≡ at_most h.max_value (at_least h.min_value (ratio n d)))
      × Between h.min_value h.max_value (percentile h p)
unfolding percentile ended
percentile_lem h c order p low high =
    let t = threshold_of h.num p in
    let r =
      stop_at-Reached t h.buckets bucket_limit 0 0 (omega (arith, c.size)) (omega (arith, low))
        (omega (arith, high, c.counted)) in
    let inside : get_or (0 ∷ bucket_limit) r.place 0 ≤ get_or bucket_limit r.place 0 =
      ascending-get_or 0 bucket_limit r.place refl (omega (arith, r.within, c.size)) in
    let (n, d, e, real, from, to) =
      scaled-Between t r.bucket (omega (arith, inside, r.left_is, r.right_is)) r.short r.reached in
    let value : percentile h p ≡ at_most h.max_value (at_least h.min_value (ratio n d)) =
      ap (ended h t) r.result ∙ ap (λ v. at_most h.max_value (at_least h.min_value v)) e in
    (
      r.place,
      n,
      d,
      omega (arith, r.before, r.short),
      omega (arith, r.upto, r.reached),
      rw (sym r.left_is) from,
      rw (sym r.right_is) to,
      value,
      rw value (clamped-Between h.min_value h.max_value n d order real),
    )
