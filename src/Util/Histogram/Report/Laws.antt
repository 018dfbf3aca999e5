-- ===== src/Util/Histogram/Report/Laws.antt =====
-- The table of a histogram accounts for every sample.
use mathlib.Core.Path.{subst}
use native.Mathlib.Nat.{div-lt_iff_lt-mul}
use mss_kv_lab.Base.{
  ℕ, suc, ◌+◌, ◌*◌, ◌/◌, ◌≤◌, ◌<◌, ◌≡◌, refl, List, [], ◌∷◌, length, get_or, ◌==◌, arith,
  Bool-cases, inl, inr,
}
use mss_kv_lab.Util.Histogram.{Histogram, bucket_limit}
use mss_kv_lab.Util.Histogram.Buckets.{total}
use mss_kv_lab.Util.Histogram.Merge.{IsCounted}
use mss_kv_lab.Util.Histogram.Report.{Row, marks_of, rows_of, to_string}

-- The cumulative percentages are those of the running sums, from `sum` up to all of num.
abbrev pub Cumulated : ℕ → ℕ → List Row → Type 0
Cumulated sum num [] = sum ≡ num
Cumulated sum num (r ∷ rs) =
    (r.percent ≡ (100 * r.count, num))
    × (r.cumulative ≡ (100 * (sum + r.count), num))
    × Cumulated (sum + r.count) num rs

-- A row is about one bucket, which is not empty, and has at most 20 marks.
abbrev pub IsBucket : List ℕ → List ℕ → Row → Type 0
IsBucket counts limits r =
    (0 < r.count)
    × (r.marks ≤ 20)
    × (i : ℕ) × (i < length counts)
    × (r.count ≡ get_or counts i 0)
    × (r.left ≡ get_or limits i 0)
    × (r.right ≡ get_or limits (suc i) 0)

abbrev pub AllBuckets : List ℕ → List ℕ → List Row → Type 0
AllBuckets counts limits [] = Unit
AllBuckets counts limits (r ∷ rs) = IsBucket counts limits r × AllBuckets counts limits rs

AllBuckets-later :
    (c l : ℕ) (cs ls : List ℕ) (rs : List Row)
    → AllBuckets cs ls rs
    → AllBuckets (c ∷ cs) (l ∷ ls) rs
AllBuckets-later c l cs ls [] a = tt
AllBuckets-later c l cs ls (r ∷ rs) ((some_samples, marks, i, h, count, left, right), a) = (
  (some_samples, marks, suc i, omega (arith, h), count, left, right),
  AllBuckets-later c l cs ls rs a,
)

marks_of-le : (num c : ℕ) → 0 < num → c ≤ num → marks_of num c ≤ 20
unfolding marks_of
marks_of-le num c h k =
    let positive : 0 < 2 * num = omega (arith, h) in
    let small : 40 * c + num < 21 * (2 * num) = omega (arith, h, k) in
    let less : (40 * c + num) / (2 * num) < 21 = (div-lt_iff_lt-mul positive).1 small in
    omega (arith, less)

rows_of-Cumulated :
    (num : ℕ) (cs ls : List ℕ) (left sum : ℕ)
    → 0 < num
    → length cs ≤ length ls
    → sum + total cs ≡ num
    → Cumulated sum num (rows_of num cs ls left sum)
      × AllBuckets cs (left ∷ ls) (rows_of num cs ls left sum)
unfolding rows_of
rows_of-Cumulated num [] ls left sum h fits e = (omega (arith, e), tt)
rows_of-Cumulated num (c ∷ cs) [] left sum h fits e = absurd (omega (arith, fits))
rows_of-Cumulated num (c ∷ cs) (l ∷ ls) left sum h fits e =
    let (sums, rows) =
      rows_of-Cumulated num cs ls l (sum + c) h (omega (arith, fits)) (omega (arith, e)) in
    let later = AllBuckets-later c left cs (l ∷ ls) _ rows in
    elim (Bool-cases (c == 0)) [
      | inl k ↦
          let same : sum + c ≡ sum = ground (arith, k) in
          rw k (subst (λ s. Cumulated s num (rows_of num cs ls l (sum + c))) same sums, later)
      | inr k ↦ rw k (
        (refl, refl, sums),
        (
          (
            ground (arith, k),
            marks_of-le num c h (omega (arith, e)),
            0,
            omega arith,
            refl,
            refl,
            refl,
          ),
          later,
        ),
      )
    ]

-- For a histogram with samples, the table that ToString prints has one row for each of some buckets
-- that are not empty, with at most 20 marks; the cumulative percentages are those of the running
-- sums of the rows' counts, and the last of these is the number of samples, so no sample is left
-- out.
pub to_string_lem :
    (h : Histogram)
    → IsCounted h
    → 0 < h.num
    → Cumulated 0 h.num (to_string h).rows
      × AllBuckets h.buckets (0 ∷ bucket_limit) (to_string h).rows
unfolding to_string
to_string_lem h c some_samples =
    rows_of-Cumulated h.num h.buckets bucket_limit 0 0 some_samples (omega (arith, c.size))
      (omega (arith, c.counted))
