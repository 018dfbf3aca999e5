-- ===== src/Util/Histogram/Report.antt =====
-- `Average` and `ToString` of bench/util/histogram.cc: the figures that are printed, without their
-- layout. Of a fraction, the two parts. The standard deviation, a square root, is left aside.
pub mod Laws
mod Tests
use mss_kv_lab.Base.{ℕ, zero, suc, ◌+◌, ◌*◌, ◌/◌, List, [], ◌∷◌, ◌==◌, if◌then◌else◌}
use mss_kv_lab.Base.Int.{ℤ, pos}
use mss_kv_lab.Util.Histogram.{Histogram, bucket_limit}
use mss_kv_lab.Util.Histogram.Percentile.{Value, percentile, median}

-- A line of the table: the limits and the count of a bucket, the percentage, the cumulative
-- percentage, and the number of hash marks.
pub record Row : Type 0 where
  pub left : ℕ
  pub right : ℕ
  pub count : ℕ
  pub percent : ℕ × ℕ
  pub cumulative : ℕ × ℕ
  pub marks : ℕ

pub record Report : Type 0 where
  pub count : ℕ
  pub average : ℤ × ℕ
  pub min_value : ℤ
  pub median_value : Value
  pub max_value : ℤ
  pub percentiles : List Value
  pub rows : List Row

-- `Average`
unfoldable pub average : Histogram → ℤ × ℕ
average h = if h.num == 0 then (pos 0, 1) else (h.sum, h.num)

-- `static_cast<int>(20*(buckets_[b] / num_) + 0.5)`
unfoldable pub marks_of : ℕ → ℕ → ℕ
marks_of num count = (40 * count + num) / (2 * num)

-- The loop; `mult` is 100 / num.
unfoldable pub rows_of : ℕ → List ℕ → List ℕ → ℕ → ℕ → List Row
unfolding marks_of
rows_of num [] limits left sum = []
rows_of num (c ∷ cs) [] left sum = []
rows_of num (c ∷ cs) (l ∷ ls) left sum =
    let rest = rows_of num cs ls l (sum + c) in
    if c == 0
    then rest
    else record {
      left = left;
      right = l;
      count = c;
      percent = (100 * c, num);
      cumulative = (100 * (sum + c), num);
      marks = marks_of num c;
    }
      ∷ rest

-- `ToString`
unfoldable pub to_string : Histogram → Report
unfolding average rows_of
to_string h = record {
  count = h.num;
  average = average h;
  min_value = if h.num == 0 then pos 0 else h.min_value;
  median_value = median h;
  max_value = h.max_value;
  percentiles =
      percentile h 5000
      ∷ percentile h 7500
      ∷ percentile h 9900
      ∷ percentile h 9990
      ∷ percentile h 9999
      ∷ [];
  rows = rows_of h.num h.buckets bucket_limit 0 0;
}
