-- ===== src/Bench/Keys/Tests.antt =====
-- Keys of ten bytes and of one byte.
use mss_kv_lab.Base.{ℕ, ◌↔◌, ◌≡◌, refl, [], ◌∷◌, replicate, arith}
use mss_kv_lab.Bench.Keys.{generate_key_from_int, seq_number}
use mss_kv_lab.Bench.Keys.Distinct.{generate_key-collide, seq_keys-distinct}

first_key :
    generate_key_from_int 10 258 (replicate 10 255)
    ≡ 2 ∷ 1 ∷ 0 ∷ 0 ∷ 0 ∷ 0 ∷ 0 ∷ 0 ∷ b'0' ∷ b'0' ∷ []
unfolding generate_key_from_int
first_key = refl

generate_key-collide_example :
    (generate_key_from_int 1 259 (0 ∷ []) ≡ generate_key_from_int 1 3 (9 ∷ [])) ↔ (◌≡◌ {A = ℕ} 3 3)
generate_key-collide_example = generate_key-collide 1 (0 ∷ []) (9 ∷ []) refl refl 259 3

same_key :
    generate_key_from_int 2 (seq_number 3 1 2) (0 ∷ 7 ∷ [])
    ≡ generate_key_from_int 2 (seq_number 3 1 2) (9 ∷ 8 ∷ [])
unfolding generate_key_from_int
same_key = refl

seq_keys-distinct_example : (◌≡◌ {A = ℕ} 1 1) × (◌≡◌ {A = ℕ} 2 2)
seq_keys-distinct_example =
    seq_keys-distinct 2 (0 ∷ 7 ∷ []) (9 ∷ 8 ∷ []) refl refl 3 1 1 2 2 (omega arith) (omega arith)
      (omega arith) (omega arith) (omega arith) (omega arith) same_key
