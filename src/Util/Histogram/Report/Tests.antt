-- ===== src/Util/Histogram/Report/Tests.antt =====
-- The table of a histogram of three samples.
use mss_kv_lab.Base.{◌≡◌, refl, [], ◌∷◌, arith}
use mss_kv_lab.Base.Int.{pos, ◌+ℤ◌}
use mss_kv_lab.Util.Histogram.{Histogram, bucket_limit, clear, search, add, to_double, rounded}
use mss_kv_lab.Util.Histogram.Merge.{clear-IsCounted, add_all, add_all-IsCounted}
use mss_kv_lab.Util.Histogram.Report.{average, marks_of, rows_of, to_string}
use mss_kv_lab.Util.Histogram.Report.Laws.{Cumulated, AllBuckets, to_string_lem}

abbrev three : Histogram
three = add_all clear (pos 5 ∷ pos 130 ∷ pos 5 ∷ [])

to_string_lem_example :
    Cumulated 0 three.num (to_string three).rows
    × AllBuckets three.buckets (0 ∷ bucket_limit) (to_string three).rows
unfolding add_all add search
to_string_lem_example =
    to_string_lem three (add_all-IsCounted clear clear-IsCounted (pos 5 ∷ pos 130 ∷ pos 5 ∷ []))
      (omega arith)

two_rows :
    (to_string three).rows
    ≡ record {
      left = 5;
      right = 6;
      count = 2;
      percent = (200, 3);
      cumulative = (200, 3);
      marks = 13;
    }
      ∷ record {
        left = 120;
        right = 140;
        count = 1;
        percent = (100, 3);
        cumulative = (300, 3);
        marks = 7;
      }
      ∷ []
unfolding to_string rows_of marks_of add_all add search
two_rows = refl

mean : (to_string three).average ≡ (pos 140, 3)
unfolding to_string average add_all add search ◌+ℤ◌ to_double rounded
mean = refl
