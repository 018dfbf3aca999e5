-- ===== src/Util/Histogram/Percentile/Tests.antt =====
-- Percentiles of a histogram of two samples, and of an empty one.
use mss_kv_lab.Base.{ℕ, suc, ◌*◌, ◌≤◌, ◌<◌, ◌≡◌, refl, ltb, true, [], ◌∷◌, get_or, take, arith}
use mss_kv_lab.Base.Int.{pos}
use mss_kv_lab.Util.Histogram.{Histogram, bucket_limit, clear, search, add, rounded}
use mss_kv_lab.Util.Histogram.Buckets.{total}
use mss_kv_lab.Util.Histogram.Merge.{clear-IsCounted, add_all, add_all-IsCounted}
use mss_kv_lab.Util.Histogram.Percentile.{
  nan, whole, ratio, stop_at, scaled, at_least, at_most, ended, percentile, median, scale,
  threshold_of,
}
use mss_kv_lab.Util.Histogram.Percentile.Laws.{Between, percentile_lem}

abbrev two : Histogram
two = add_all clear (pos 5 ∷ pos 130 ∷ [])

percentile_lem_example :
    (i : ℕ) × (n : ℕ) × (d : ℕ) × (total (take i two.buckets) * scale < threshold_of two.num 9900)
    × (threshold_of two.num 9900 ≤ total (take (suc i) two.buckets) * scale)
    × (get_or (0 ∷ bucket_limit) i 0 * d ≤ n)
    × (n ≤ get_or bucket_limit i 0 * d)
    × (percentile two 9900 ≡ at_most two.max_value (at_least two.min_value (ratio n d)))
    × Between two.min_value two.max_value (percentile two 9900)
unfolding add_all add search threshold_of rounded
percentile_lem_example =
    percentile_lem two (add_all-IsCounted clear clear-IsCounted (pos 5 ∷ pos 130 ∷ []))
      (omega arith) 9900 (omega arith) (omega arith)

-- The threshold of the percentile 99.9 of a thousand samples is above 999.
threshold_above : ltb (999 * scale) (threshold_of 1000 9990) ≡ true
unfolding threshold_of rounded
threshold_above = refl

-- The 99th percentile is past the greater sample before it is lowered to it.
last_percent : percentile two 9900 ≡ whole (pos 130)
unfolding percentile ended stop_at scaled at_least at_most threshold_of rounded add_all add search
last_percent = refl

-- Without samples the first bucket is taken, and its share is 0 / 0.
empty_median : median clear ≡ nan
unfolding median percentile ended stop_at scaled at_least at_most threshold_of rounded
empty_median = refl
