-- ===== src/Util/Histogram/Tests.antt =====
-- A histogram of three samples.
use mss_kv_lab.Base.{◌≡◌, refl, ◌+◌, ◌^◌, [], ◌∷◌}
use mss_kv_lab.Base.Int.{pos}
use mss_kv_lab.Util.Histogram.{Histogram, clear, merge, to_double, rounded}
use mss_kv_lab.Util.Histogram.Merge.{
  IsCounted, clear-IsCounted, add_all, add_all-IsCounted, merge-samples, without_sums,
  reachable-IsCounted,
}

abbrev two : Histogram
two = add_all clear (pos 5 ∷ pos 130 ∷ [])

two-IsCounted : IsCounted two
two-IsCounted = add_all-IsCounted clear clear-IsCounted (pos 5 ∷ pos 130 ∷ [])

merge-samples_example :
    without_sums (merge two (add_all clear (pos 7 ∷ []))) ≡ without_sums (add_all two (pos 7 ∷ []))
merge-samples_example = merge-samples two two-IsCounted (pos 7 ∷ [])

reachable-IsCounted_example :
    IsCounted clear × IsCounted (add_all two (pos 7 ∷ [])) × IsCounted (merge two clear)
reachable-IsCounted_example =
    reachable-IsCounted two clear two-IsCounted clear-IsCounted (pos 7 ∷ [])

-- The sum of squares of 2^27 and three samples of 1 depends on the order.
rounded_first : to_double (pos (2 ^ 54 + 1)) ≡ pos (2 ^ 54)
unfolding to_double rounded
rounded_first = refl

rounded_last : to_double (pos (2 ^ 54 + 3)) ≡ pos (2 ^ 54 + 4)
unfolding to_double rounded
rounded_last = refl
