-- ===== src/Bench/Mixed/Draws.antt =====
-- The keys that one round after another makes from the numbers of the thread's generator.
use mss_kv_lab.Base.{ℕ, zero, suc, ◌+◌, ◌%◌, ◌≡◌, sym, ap, ◌∙◌, Bytes, length, arith}
use mss_kv_lab.Kv.{Pmkv}
use mss_kv_lab.Util.Random
use mss_kv_lab.Util.Random.{Random}
use mss_kv_lab.Bench.Keys.Distinct.{key_of, generate_key-eq-key_of, length-key_of}
use mss_kv_lab.Bench.Workload.{Config, Worker}
use mss_kv_lab.Bench.Mixed.{with_random_key}

-- The generator after n numbers.
unfoldable pub draws : ℕ → Random → Random
draws zero r = r
draws (suc n) r = (Random.next (draws n r)).1

-- The key of the round that follows k others.
unfoldable pub drawn_key : Config → Random → ℕ → Bytes
drawn_key cfg rand k = key_of cfg.key_size ((Random.next (draws k rand)).0 % cfg.flags_num)

next_draw : (i : ℕ) (rand : Random) → draws (i + 1) rand ≡ (Random.next (draws i rand)).1
unfolding draws
next_draw i rand = let succ : i + 1 ≡ suc i = omega arith in ap (λ n. draws n rand) succ

pub with_random_key-drawn :
    (kv : Pmkv) (cfg : Config) (rand : Random) (i : ℕ) (w : Worker kv)
    → length w.key ≡ cfg.key_size
    → w.rand ≡ draws i rand
    → let v = with_random_key kv cfg w in
      (v.rand ≡ draws (i + 1) rand)
      × (length v.key ≡ cfg.key_size)
      × ((k : ℕ) → k + 1 ≡ i + 1 → v.key ≡ drawn_key cfg rand k)
unfolding with_random_key drawn_key
with_random_key-drawn kv cfg rand i w room at =
    let made =
      generate_key-eq-key_of cfg.key_size ((Random.next w.rand).0 % cfg.flags_num) w.key room in
    (
      ap (λ r. (Random.next r).1) at ∙ sym (next_draw i rand),
      ap (length {A = ℕ}) made ∙ length-key_of cfg.key_size _,
      λ k e.
          let same : i ≡ k = omega (arith, e) in
          made
          ∙ ap (λ r. key_of cfg.key_size ((Random.next r).0 % cfg.flags_num))
              (at ∙ ap (λ n. draws n rand) same),
    )
