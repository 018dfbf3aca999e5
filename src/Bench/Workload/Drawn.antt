-- ===== src/Bench/Workload/Drawn.antt =====
-- The keys that a workload makes, in order, and tests on a list of keys.
use mss_kv_lab.Base.{
  ℕ, zero, suc, ◌+◌, ◌≡◌, refl, Bool, false, ◌||◌, List, [], ◌∷◌, Bytes, bytes_eq, length, arith,
  if◌then◌else◌,
}
use mss_kv_lab.Kv.{Pmkv}
use mss_kv_lab.Util.Random.{Random}
use mss_kv_lab.Bench.Keys.Distinct.{key_of, generate_key-eq-key_of}
use mss_kv_lab.Bench.Workload.{Config, Worker, pick_number, with_key}

abbrev pub mem_key : Bytes → List Bytes → Bool
mem_key j [] = false
mem_key j (k ∷ ks) = bytes_eq k j || mem_key j ks

-- How many keys of a list are new, where `present` says which keys are there before.
abbrev pub new_keys : (Bytes → Bool) → List Bytes → ℕ
new_keys present [] = 0
new_keys present (k ∷ ks) =
    (if present k then 0 else 1) + new_keys (λ j. bytes_eq k j || present j) ks

module _ (cfg : Config) (seq : Bool) (tid : ℕ) where
  unfoldable pub drawn : ℕ → ℕ → Random → List Bytes
  drawn zero i rand = []
  drawn (suc n) i rand =
      let (k, rand') = pick_number cfg seq tid i rand in
      key_of cfg.key_size k ∷ drawn n (i + 1) rand'

  -- The generator after `n` rounds.
  unfoldable pub rand_after : ℕ → ℕ → Random → Random
  rand_after zero i rand = rand
  rand_after (suc n) i rand = rand_after n (i + 1) (pick_number cfg seq tid i rand).1

  pub length-drawn : (n i : ℕ) (rand : Random) → length (drawn n i rand) ≡ n
  unfolding drawn
  length-drawn zero i rand = refl
  length-drawn (suc n) i rand =
      omega (arith, length-drawn n (i + 1) (pick_number cfg seq tid i rand).1)

  module _ (kv : Pmkv) where
    pub key-with_key :
        (i : ℕ) (w : Worker kv)
        → length w.key ≡ cfg.key_size
        → (with_key kv cfg seq tid i w).key
          ≡ key_of cfg.key_size (pick_number cfg seq tid i w.rand).0
    unfolding with_key
    key-with_key i w h =
        generate_key-eq-key_of cfg.key_size (pick_number cfg seq tid i w.rand).0 w.key h
