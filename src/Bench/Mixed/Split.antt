-- ===== src/Bench/Mixed/Split.antt =====
-- How the percentage splits the rounds into reads and writes.
use mss_kv_lab.Base.{
  ℕ, zero, suc, ◌+◌, ◌-◌, ◌*◌, ◌/◌, ◌%◌, ◌≤◌, ◌<◌, min, ◌≡◌, refl, sym, ap, ap₂, ◌∙◌, ◌⊎◌, inl, inr,
  arith,
}
use mathlib.Core.Path.{subst}
use native.Mathlib.Nat.{suc-mul, mul-add}
use native.Mathlib.Decide.{dec_lt}
use mss_kv_lab.Base.Int.{pos, ◌-ℤ◌}
use mss_kv_lab.Bench.Mixed.{Weights, Choice, reads, writes, refill, choose}

-- The weights in a batch of a hundred, of which `batches` have been begun: reads first, then
-- writes. `done_reads` and `done_writes` are those of all batches.
pub record Batch (p : ℕ) (v : Weights) (done_reads done_writes : ℕ) : Type 0 where
  pub batches : ℕ
  pub gets : ℕ
  pub puts : ℕ
  pub get_is : v.get_weight ≡ pos gets
  pub put_is : v.put_weight ≡ pos puts
  pub reads_so_far : done_reads + gets ≡ batches * p
  pub writes_so_far : done_writes + puts ≡ batches * (100 - p)
  pub few_gets : gets ≤ p
  pub few_puts : puts ≤ 100 - p
  pub gets_first : 0 < gets → puts ≡ 100 - p
  pub begun : gets + puts < 100

pos-ℤ_pos : (a b : ℕ) → b ≤ a → pos a -ℤ pos b ≡ pos (a - b)
unfolding ◌-ℤ◌
pos-ℤ_pos a b h = ground arith

abbrev weights_of : ℕ → ℕ → Weights
weights_of g h = record { get_weight = pos g; put_weight = pos h }

abbrev Step : ℕ → ℕ → ℕ → Choice × Weights → Type 0
Step p r w cv =
    ((cv.0 ≡ reads) × Batch p cv.1 (r + 1) w) ⊎ ((cv.0 ≡ writes) × Batch p cv.1 r (w + 1))

choose_get : (g h : ℕ) → choose (weights_of (suc g) h) ≡ (reads, weights_of g h)
unfolding ◌-ℤ◌
choose_get g h = ground arith

choose_put : (h : ℕ) → choose (weights_of 0 (suc h)) ≡ (writes, weights_of 0 h)
unfolding ◌-ℤ◌
choose_put h = ground arith

-- A choice in a batch that is not at its end.
choose-Batch :
    (p q g h r w : ℕ)
    → r + g ≡ q * p
    → w + h ≡ q * (100 - p)
    → g ≤ p
    → h ≤ 100 - p
    → (0 < g → h ≡ 100 - p)
    → 0 < g + h
    → g + h ≤ 100
    → Step p r w (choose (weights_of g h))
choose-Batch p q zero zero r w er ew fg fh first some_left le = absurd (omega arith)
choose-Batch p q zero (suc h) r w er ew fg fh first some_left le =
    subst (Step p r w) (sym (choose_put h)) (
      inr (
        refl,
        record {
          batches = q;
          gets = 0;
          puts = h;
          get_is = refl;
          put_is = refl;
          reads_so_far = er;
          writes_so_far = omega arith;
          few_gets = omega arith;
          few_puts = omega arith;
          gets_first = λ k. absurd (omega arith);
          begun = omega arith;
        },
      ))
choose-Batch p q (suc g) h r w er ew fg fh first some_left le =
    subst (Step p r w) (sym (choose_get g h)) (
      inl (
        refl,
        record {
          batches = q;
          gets = g;
          puts = h;
          get_is = refl;
          put_is = refl;
          reads_so_far = omega arith;
          writes_so_far = ew;
          few_gets = omega arith;
          few_puts = fh;
          gets_first = λ k. first (omega arith);
          begun = omega arith;
        },
      ))

refill-Batch :
    (p q g h r w : ℕ)
    → p ≤ 100
    → r + g ≡ q * p
    → w + h ≡ q * (100 - p)
    → g ≤ p
    → h ≤ 100 - p
    → (0 < g → h ≡ 100 - p)
    → g + h < 100
    → Step p r w (choose (refill (pos p) (weights_of g h)))
refill-Batch p q zero zero r w small er ew fg fh first le =
    let full : refill (pos p) (weights_of 0 0) ≡ weights_of p (100 - p) =
      ap (λ t. record { get_weight = pos p; put_weight = t }) (pos-ℤ_pos 100 p small) in
    subst (λ v. Step p r w (choose v)) (sym full)
      (choose-Batch p (suc q) p (100 - p) r w (omega (arith, suc-mul q p))
        (omega (arith, suc-mul q (100 - p))) (omega arith) (omega arith) (λ k. refl) (omega arith)
        (omega arith))
refill-Batch p q zero (suc h) r w small er ew fg fh first le =
    choose-Batch p q zero (suc h) r w er ew fg fh first (omega arith) (omega arith)
refill-Batch p q (suc g) h r w small er ew fg fh first le =
    choose-Batch p q (suc g) h r w er ew fg fh first (omega arith) (omega arith)

-- The weights after a round, and that it reads or writes.
pub round-Batch :
    (p r w : ℕ) (v : Weights) → p ≤ 100 → Batch p v r w → Step p r w (choose (refill (pos p) v))
round-Batch p r w v small b =
    subst (λ u. Step p r w (choose (refill (pos p) u)))
      (λ i. record { get_weight = sym b.get_is i; put_weight = sym b.put_is i })
      (refill-Batch p b.batches b.gets b.puts r w small b.reads_so_far b.writes_so_far b.few_gets
        b.few_puts b.gets_first b.begun)

split_at :
    (p r n q m : ℕ)
    → n / 100 ≡ q
    → n % 100 ≡ m
    → r ≡ q * p + min m p
    → r ≡ n / 100 * p + min (n % 100) p
split_at p r n q m eq em e = e ∙ ap₂ (λ a b. a * p + min b p) (sym eq) (sym em)

-- Of n rounds, each whole hundred has p reads, and the rest begins with them.
pub count-Batch :
    (p r w n : ℕ) (v : Weights)
    → p ≤ 100
    → Batch p v r w
    → r + w ≡ n
    → r ≡ n / 100 * p + min (n % 100) p
count-Batch p r w n v small b total =
    let whole : b.batches * p + b.batches * (100 - p) ≡ b.batches * 100 =
      sym (mul-add b.batches p (100 - p)) ∙ ap (λ t. b.batches * t) (omega arith) in
    let rounds : n + (b.gets + b.puts) ≡ b.batches * 100 =
      omega (arith, b.reads_so_far, b.writes_so_far, whole) in
    elim (dec_lt 0 (b.gets + b.puts)) [
      | yes inside ↦
          let last : suc (b.batches - 1) ≡ b.batches = omega (arith, rounds) in
          let before : (b.batches - 1) * p + p ≡ b.batches * p =
            sym (suc-mul (b.batches - 1) p) ∙ ap (λ t. t * p) last in
          split_at p r n (b.batches - 1) (100 - (b.gets + b.puts)) (omega (arith, rounds, b.begun))
            (omega (arith, rounds, b.begun))
            (omega
              (arith, before, b.reads_so_far, b.few_gets, b.few_puts, read_part b small inside))
      | no at_end ↦
          split_at p r n b.batches 0 (omega (arith, rounds)) (omega (arith, rounds))
            (omega (arith, b.reads_so_far))
    ]
  where
    read_part :
        (b : Batch p v r w)
        → p ≤ 100
        → 0 < b.gets + b.puts
        → min (100 - (b.gets + b.puts)) p + b.gets ≡ p
    read_part b small inside = elim (dec_lt 0 b.gets) [
      | yes reading ↦ omega (arith, b.gets_first reading, b.few_gets)
      | no writing ↦ omega (arith, b.few_puts)
    ]
