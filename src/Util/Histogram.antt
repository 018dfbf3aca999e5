-- ===== src/Util/Histogram.antt =====
-- bench/util/histogram.cc: counts of latencies in buckets. Samples and counts are whole, and
-- exact as doubles below 2^53; the two sums are rounded after each operation, as doubles are. The
-- formatted output is left aside.
mod Buckets
pub mod Merge
pub mod Percentile
pub mod Report
mod Tests
use mss_kv_lab.Base.{
  ℕ, zero, suc, ◌+◌, ◌*◌, ◌/◌, ◌%◌, ◌^◌, ◌==◌, ◌||◌, true, false, Bool, List, [], ◌∷◌, ltb,
  if◌then◌else◌, ◌&&◌,
}
use mss_kv_lab.Base.{replicate, get_or, set}
use mss_kv_lab.Base.Int.{ℤ, pos, negsuc, leb_ℤ, ltb_ℤ, ◌+ℤ◌, ◌-ℤ◌, ◌*ℤ◌}

-- `kNumBuckets`
abbrev pub num_buckets : ℕ
num_buckets = 154

-- `kBucketLimit`: 1e200 is the last limit.
abbrev pub bucket_limit : List ℕ
bucket_limit =
    1
    ∷ 2
    ∷ 3
    ∷ 4
    ∷ 5
    ∷ 6
    ∷ 7
    ∷ 8
    ∷ 9
    ∷ 10
    ∷ 12
    ∷ 14
    ∷ 16
    ∷ 18
    ∷ 20
    ∷ 25
    ∷ 30
    ∷ 35
    ∷ 40
    ∷ 45
    ∷ 50
    ∷ 60
    ∷ 70
    ∷ 80
    ∷ 90
    ∷ 100
    ∷ 120
    ∷ 140
    ∷ 160
    ∷ 180
    ∷ 200
    ∷ 250
    ∷ 300
    ∷ 350
    ∷ 400
    ∷ 450
    ∷ 500
    ∷ 600
    ∷ 700
    ∷ 800
    ∷ 900
    ∷ 1000
    ∷ 1200
    ∷ 1400
    ∷ 1600
    ∷ 1800
    ∷ 2000
    ∷ 2500
    ∷ 3000
    ∷ 3500
    ∷ 4000
    ∷ 4500
    ∷ 5000
    ∷ 6000
    ∷ 7000
    ∷ 8000
    ∷ 9000
    ∷ 10000
    ∷ 12000
    ∷ 14000
    ∷ 16000
    ∷ 18000
    ∷ 20000
    ∷ 25000
    ∷ 30000
    ∷ 35000
    ∷ 40000
    ∷ 45000
    ∷ 50000
    ∷ 60000
    ∷ 70000
    ∷ 80000
    ∷ 90000
    ∷ 100000
    ∷ 120000
    ∷ 140000
    ∷ 160000
    ∷ 180000
    ∷ 200000
    ∷ 250000
    ∷ 300000
    ∷ 350000
    ∷ 400000
    ∷ 450000
    ∷ 500000
    ∷ 600000
    ∷ 700000
    ∷ 800000
    ∷ 900000
    ∷ 1000000
    ∷ 1200000
    ∷ 1400000
    ∷ 1600000
    ∷ 1800000
    ∷ 2000000
    ∷ 2500000
    ∷ 3000000
    ∷ 3500000
    ∷ 4000000
    ∷ 4500000
    ∷ 5000000
    ∷ 6000000
    ∷ 7000000
    ∷ 8000000
    ∷ 9000000
    ∷ 10000000
    ∷ 12000000
    ∷ 14000000
    ∷ 16000000
    ∷ 18000000
    ∷ 20000000
    ∷ 25000000
    ∷ 30000000
    ∷ 35000000
    ∷ 40000000
    ∷ 45000000
    ∷ 50000000
    ∷ 60000000
    ∷ 70000000
    ∷ 80000000
    ∷ 90000000
    ∷ 100000000
    ∷ 120000000
    ∷ 140000000
    ∷ 160000000
    ∷ 180000000
    ∷ 200000000
    ∷ 250000000
    ∷ 300000000
    ∷ 350000000
    ∷ 400000000
    ∷ 450000000
    ∷ 500000000
    ∷ 600000000
    ∷ 700000000
    ∷ 800000000
    ∷ 900000000
    ∷ 1000000000
    ∷ 1200000000
    ∷ 1400000000
    ∷ 1600000000
    ∷ 1800000000
    ∷ 2000000000
    ∷ 2500000000
    ∷ 3000000000
    ∷ 3500000000
    ∷ 4000000000
    ∷ 4500000000
    ∷ 5000000000
    ∷ 6000000000
    ∷ 7000000000
    ∷ 8000000000
    ∷ 9000000000
    ∷ (10 ^ 200)
    ∷ []

-- The multiple of d nearest to n, the even one of two, divided by d.
abbrev pub nearest : ℕ → ℕ → ℕ
nearest n d =
    let q = n / d in let r = n % d in if ltb (2 * r) d || 2 * r == d && q % 2 == 0 then q else q + 1

-- The fraction n / d, rounded to 53 bits where it has more, down to units of `unit`.
unfoldable pub rounded : ℕ → ℕ → ℕ → ℕ → ℕ
rounded zero unit n d = nearest n (unit * d) * unit
rounded (suc fuel) unit n d = elim (ltb n (2 ^ 53 * (unit * d))) [
  | true ↦ nearest n (unit * d) * unit
  | false ↦ rounded fuel (2 * unit) n d
]

-- The double nearest to an integer, below 2^1023.
unfoldable pub to_double : ℤ → ℤ
to_double (pos n) = pos (rounded 970 1 n 1)
to_double (negsuc n) = pos 0 -ℤ pos (rounded 970 1 (suc n) 1)

pub record Histogram : Type 0 where
  pub min_value : ℤ
  pub max_value : ℤ
  pub num : ℕ
  pub sum : ℤ
  pub sum_squares : ℤ
  pub buckets : List ℕ

-- `Clear`
abbrev pub clear : Histogram
clear = record {
  min_value = pos (get_or bucket_limit 153 0);
  max_value = pos 0;
  num = 0;
  sum = pos 0;
  sum_squares = pos 0;
  buckets = replicate num_buckets 0;
}

-- The loop of `Add`, from bucket `b`; the rounds left are those up to the last bucket.
unfoldable pub search : ℕ → List ℕ → ℤ → ℕ → ℕ
search zero limits value b = b
search (suc left) limits value b =
    let rest = search left limits value (b + 1) in
    if leb_ℤ (pos (get_or limits b 0)) value then rest else b

abbrev pub bucket_of : ℤ → ℕ
bucket_of value = search 153 bucket_limit value 0

-- `if (min_ > value) min_ = value;` and `if (max_ < value) max_ = value;`
abbrev pub smaller : ℤ → ℤ → ℤ
smaller value old = if ltb_ℤ value old then value else old

abbrev pub larger : ℤ → ℤ → ℤ
larger value old = if ltb_ℤ old value then value else old

unfoldable pub add : Histogram → ℤ → Histogram
add h value =
    let b = bucket_of value in
    record {
      min_value = smaller value h.min_value;
      max_value = larger value h.max_value;
      num = h.num + 1;
      sum = to_double (h.sum +ℤ value);
      sum_squares = to_double (h.sum_squares +ℤ to_double (value *ℤ value));
      buckets = set h.buckets b (get_or h.buckets b 0 + 1);
    }

-- `buckets_[b] += other.buckets_[b]` for every b
abbrev pub add_buckets : List ℕ → List ℕ → List ℕ
add_buckets [] ys = []
add_buckets (x ∷ xs) [] = x ∷ xs
add_buckets (x ∷ xs) (y ∷ ys) = (x + y) ∷ add_buckets xs ys

unfoldable pub merge : Histogram → Histogram → Histogram
merge h other = record {
  min_value = smaller other.min_value h.min_value;
  max_value = larger other.max_value h.max_value;
  num = h.num + other.num;
  sum = to_double (h.sum +ℤ other.sum);
  sum_squares = to_double (h.sum_squares +ℤ other.sum_squares);
  buckets = add_buckets h.buckets other.buckets;
}
