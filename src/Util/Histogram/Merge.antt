-- ===== src/Util/Histogram/Merge.antt =====
-- `Add` counts each sample in its bucket, and `Merge` loses none.
use mss_kv_lab.Base.{
  ℕ, ◌+◌, ◌^◌, ◌≡◌, refl, ap, ◌∙◌, List, [], ◌∷◌, arith, length, get_or, length-set, ◌==◌,
  if◌then◌else◌,
}
use mss_kv_lab.Base.Int.{ℤ, pos, ◌≤ℤ◌}
use mss_kv_lab.Util.Histogram.{
  Histogram, num_buckets, bucket_limit, bucket_of, clear, smaller, larger, add, merge,
}
use mss_kv_lab.Util.Histogram.Buckets.{
  Stops, search-Stops, total, total-set_succ, add_buckets-set, add_buckets-zero, length-add_buckets,
  total-add_buckets, get_or-set_succ,
}

-- What the other methods rely on: there are 154 buckets, they hold `num` samples, and the extremes
-- are within those of an empty histogram.
pub record IsCounted (h : Histogram) : Type 0 where
  pub size : length h.buckets ≡ num_buckets
  pub counted : total h.buckets ≡ h.num
  pub min_bound : h.min_value ≤ℤ pos (10 ^ 200)
  pub max_bound : pos 0 ≤ℤ h.max_value

pub clear-IsCounted : IsCounted clear
clear-IsCounted = record {
  size = refl;
  counted = refl;
  min_bound = omega arith;
  max_bound = omega arith;
}

bucket_of-Stops : (v : ℤ) → Stops 0 153 bucket_limit v (bucket_of v)
bucket_of-Stops v = search-Stops 153 0 153 bucket_limit v (omega arith)

smaller-le : (a b m : ℤ) → b ≤ℤ m → smaller a b ≤ℤ m
smaller-le a b m h = ground arith

le-larger : (a b m : ℤ) → m ≤ℤ b → m ≤ℤ larger a b
le-larger a b m h = ground arith

smaller-absorb : (a b : ℤ) → b ≤ℤ a → smaller a b ≡ b
smaller-absorb a b h = ground arith

larger-absorb : (a b : ℤ) → a ≤ℤ b → larger a b ≡ b
larger-absorb a b h = ground arith

smaller_assoc : (a b c : ℤ) → smaller (smaller a b) c ≡ smaller a (smaller b c)
smaller_assoc a b c = ground arith

larger_assoc : (a b c : ℤ) → larger (larger a b) c ≡ larger a (larger b c)
larger_assoc a b c = ground arith

-- A histogram but for its sums.
abbrev pub without_sums : Histogram → Histogram
without_sums h = record h { sum = pos 0; sum_squares = pos 0 }

module _ (h : Histogram) (c : IsCounted h) where
  add-IsCounted : (v : ℤ) → IsCounted (add h v)
  unfolding add
  add-IsCounted v = record {
    size = length-set h.buckets (bucket_of v) _ ∙ c.size;
    counted = omega (
      arith,
      total-set_succ h.buckets (bucket_of v) (omega (arith, (bucket_of-Stops v).upper, c.size)),
      c.counted,
    );
    min_bound = smaller-le v h.min_value (pos (10 ^ 200)) c.min_bound;
    max_bound = le-larger v h.max_value (pos 0) c.max_bound;
  }

  merge-IsCounted : (o : Histogram) → IsCounted o → IsCounted (merge h o)
  unfolding merge
  merge-IsCounted o d = record {
    size = length-add_buckets h.buckets o.buckets ∙ c.size;
    counted =
        total-add_buckets h.buckets o.buckets (omega (arith, c.size, d.size))
        ∙ omega (arith, c.counted, d.counted);
    min_bound = smaller-le o.min_value h.min_value (pos (10 ^ 200)) c.min_bound;
    max_bound = le-larger o.max_value h.max_value (pos 0) c.max_bound;
  }

  merge-clear : without_sums (merge h clear) ≡ without_sums h
  unfolding merge
  merge-clear = λ i. record {
    min_value = smaller-absorb (pos (10 ^ 200)) h.min_value c.min_bound i;
    max_value = larger-absorb (pos 0) h.max_value c.max_bound i;
    num = zero_num i;
    sum = pos 0;
    sum_squares = pos 0;
    buckets = add_buckets-zero num_buckets h.buckets i;
  }
    where
      zero_num : h.num + 0 ≡ h.num
      zero_num = omega arith

  merge-add :
      (o : Histogram)
      → IsCounted o
      → (v : ℤ) → without_sums (merge h (add o v)) ≡ without_sums (add (merge h o) v)
  unfolding merge add
  merge-add o d v = λ i. record {
    min_value = smaller_assoc v o.min_value h.min_value i;
    max_value = larger_assoc v o.max_value h.max_value i;
    num = one_more i;
    sum = pos 0;
    sum_squares = pos 0;
    buckets = add_buckets-set h.buckets o.buckets (bucket_of v) same_size i;
  }
    where
      one_more : h.num + (o.num + 1) ≡ h.num + o.num + 1
      one_more = omega arith

      same_size : length h.buckets ≡ length o.buckets
      same_size = omega (arith, c.size, d.size)

-- The histogram after a run of samples.
unfoldable pub add_all : Histogram → List ℤ → Histogram
add_all h [] = h
add_all h (v ∷ vs) = add_all (add h v) vs

pub add_all-IsCounted : (h : Histogram) → IsCounted h → (vs : List ℤ) → IsCounted (add_all h vs)
unfolding add_all
add_all-IsCounted h c [] = c
add_all-IsCounted h c (v ∷ vs) = add_all-IsCounted (add h v) (add-IsCounted h c v) vs

add_all-without_sums :
    (a b : Histogram) (vs : List ℤ)
    → without_sums a ≡ without_sums b
    → without_sums (add_all a vs) ≡ without_sums (add_all b vs)
unfolding add_all add
add_all-without_sums a b [] e = e
add_all-without_sums a b (v ∷ vs) e =
    add_all-without_sums (add a v) (add b v) vs (ap (λ g. without_sums (add g v)) e)

merge-add_all :
    (h o : Histogram)
    → IsCounted h
    → IsCounted o
    → (vs : List ℤ) → without_sums (merge h (add_all o vs)) ≡ without_sums (add_all (merge h o) vs)
unfolding add_all
merge-add_all h o c d [] = refl
merge-add_all h o c d (v ∷ vs) =
    merge-add_all h (add o v) c (add-IsCounted o d v) vs
    ∙ add_all-without_sums _ _ vs (merge-add h c o d v)

-- Merging the histogram of one thread's samples into another histogram gives what the samples
-- themselves would have given there: the count, the extremes and every bucket. (The two sums of
-- doubles are left out: their additions round, and come in another order.)
pub merge-samples :
    (h : Histogram)
    → IsCounted h
    → (vs : List ℤ) → without_sums (merge h (add_all clear vs)) ≡ without_sums (add_all h vs)
merge-samples h c vs =
    merge-add_all h clear c clear-IsCounted vs ∙ add_all-without_sums _ _ vs (merge-clear h c)

-- A sample is counted once: in the bucket whose limits it lies between, and in `num`; no other
-- bucket changes.
pub add_lem :
    (h : Histogram)
    → IsCounted h
    → (v : ℤ)
    → Stops 0 153 bucket_limit v (bucket_of v)
      × ((add h v).num ≡ h.num + 1)
      × ((b : ℕ)
          → get_or (add h v).buckets b 0
            ≡ get_or h.buckets b 0 + (if bucket_of v == b then 1 else 0))
unfolding add
add_lem h c v = (
  bucket_of-Stops v,
  refl,
  λ b. get_or-set_succ h.buckets (bucket_of v) b (omega (arith, (bucket_of-Stops v).upper, c.size)),
)

-- A histogram always has 154 buckets that hold `num` samples together: when it is cleared, after
-- any samples, and after merging another such histogram.
pub reachable-IsCounted :
    (h o : Histogram)
    → IsCounted h
    → IsCounted o
    → (vs : List ℤ) → IsCounted clear × IsCounted (add_all h vs) × IsCounted (merge h o)
reachable-IsCounted h o c d vs =
    (clear-IsCounted, add_all-IsCounted h c vs, merge-IsCounted h c o d)
