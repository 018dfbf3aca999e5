-- ===== src/Util/Histogram/Percentile.antt =====
-- `Percentile` and `Median` of bench/util/histogram.cc. The threshold is rounded as the doubles are;
-- what is computed of it inside a bucket is an exact fraction here.
pub mod Laws
mod Tests
use mss_kv_lab.Base.{
  ℕ, zero, suc, ◌+◌, ◌-◌, ◌*◌, ◌^◌, Bool, Option, none, some, List, [], ◌∷◌, ltb, leb, ◌==◌,
  if◌then◌else◌,
}
use mss_kv_lab.Base.Int.{ℤ, pos, negsuc, ltb_ℤ}
use mss_kv_lab.Util.Histogram.{Histogram, bucket_limit, rounded}

-- `ratio n d` is n / d, where d is not 0; `nan` is 0 / 0.
pub data Value : Type 0 where
  nan : Value
  whole : ℤ → Value
  ratio : ℕ → ℕ → Value

-- `left_point`, `right_point`, `left_sum` and `buckets_[b]` of the bucket that the loop stops at.
pub record Bucket : Type 0 where
  pub left : ℕ
  pub right : ℕ
  pub left_sum : ℕ
  pub count : ℕ

-- The threshold is kept as a number of units of 1 / 2^70.
abbrev pub scale : ℕ
scale = 2 ^ 70

-- `num_ * (p / 100.0)`, where p is the double nearest to so many hundredths: two roundings more.
unfoldable pub threshold_of : ℕ → ℕ → ℕ
threshold_of num hundredths =
    let p = rounded 970 1 (hundredths * scale) 100 in rounded 970 1 (num * rounded 970 1 p 100) 1

-- The loop.
unfoldable pub stop_at : ℕ → List ℕ → List ℕ → ℕ → ℕ → Option Bucket
stop_at threshold [] limits left sum = none
stop_at threshold (c ∷ cs) [] left sum = none
stop_at threshold (c ∷ cs) (l ∷ ls) left sum =
    let rest = stop_at threshold cs ls l (sum + c) in
    if leb threshold ((sum + c) * scale)
    then some (record { left = left; right = l; left_sum = sum; count = c })
    else rest

-- `left_point + (right_point - left_point) * pos`. The loop has passed `left_sum`, so the
-- differences are not negative.
unfoldable pub scaled : ℕ → Bucket → Value
scaled threshold b =
    let d = scale * b.count in
    let n = b.left * d + (b.right - b.left) * (threshold - b.left_sum * scale) in
    if d == 0 then nan else ratio n d

-- `if (r < min_) r = min_;`
unfoldable pub at_least : ℤ → Value → Value
at_least m nan = nan
at_least m (whole r) = whole (if ltb_ℤ r m then m else r)
at_least (pos m) (ratio n d) = if ltb n (m * d) then whole (pos m) else ratio n d
at_least (negsuc m) (ratio n d) = ratio n d

-- `if (r > max_) r = max_;`
unfoldable pub at_most : ℤ → Value → Value
at_most m nan = nan
at_most m (whole r) = whole (if ltb_ℤ m r then m else r)
at_most (pos m) (ratio n d) = if ltb (m * d) n then whole (pos m) else ratio n d
at_most (negsuc m) (ratio n d) = whole (negsuc m)

unfoldable pub ended : Histogram → ℕ → Option Bucket → Value
ended h threshold none = whole h.max_value
ended h threshold (some b) = at_most h.max_value (at_least h.min_value (scaled threshold b))

-- `Percentile` of p hundredths of a percent.
unfoldable pub percentile : Histogram → ℕ → Value
unfolding stop_at ended
percentile h p =
    let threshold = threshold_of h.num p in
    ended h threshold (stop_at threshold h.buckets bucket_limit 0 0)

-- `Median`
unfoldable pub median : Histogram → Value
median h = percentile h 5000
