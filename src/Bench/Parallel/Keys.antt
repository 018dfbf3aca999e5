-- ===== src/Bench/Parallel/Keys.antt =====
-- The keys of a sequential workload of n threads, and how many rounds the threads have done.
use native.Mathlib.Nat.{mul-le-mul_right}
use native.Mathlib.Decide.{dec_lt, ℕ_discrete}
use mss_kv_lab.Base.{
  ℕ, zero, suc, ◌+◌, ◌*◌, ◌^◌, ◌≤◌, ◌<◌, ◌≡◌, refl, sym, ap, ◌∙◌, Bytes, arith, ap₂, bytes_eq,
  bytes_eq_sound, bytes_eq_refl, ltb, Bool-cases, inl, inr, ◌==◌, if◌then◌else◌,
}
use mss_kv_lab.Bench.Keys.{seq_number}
use mss_kv_lab.Bench.Keys.Distinct.{key_of, key_of-injective, seq_number-eq, block_unique, capacity}
use mss_kv_lab.Bench.Parallel.{set_at}

-- The sum over the first n threads.
unfoldable pub total : ℕ → (ℕ → ℕ) → ℕ
total zero f = 0
total (suc n) f = f n + total n f

pub total_ext : (n : ℕ) (f g : ℕ → ℕ) → ((t : ℕ) → t < n → f t ≡ g t) → total n f ≡ total n g
unfolding total
total_ext zero f g same = refl
total_ext (suc n) f g same =
    omega (arith, same n (omega arith), total_ext n f g (λ t h. same t (omega arith)))

pub total-zero : (n : ℕ) → total n (λ t. 0) ≡ 0
unfolding total
total-zero zero = refl
total-zero (suc n) = omega (arith, total-zero n)

-- A round of one thread is one more in the sum.
pub total-suc :
    (n : ℕ) (f : ℕ → ℕ) (t : ℕ) → t < n → total n (set_at f t (suc (f t))) ≡ suc (total n f)
unfolding total
total-suc zero f t h = absurd (omega arith)
total-suc (suc n) f t h = elim (dec_lt t n) [
  | yes below ↦ ground (arith, total-suc n f t below)
  | no last ↦ ground (arith, total_ext n (set_at f t (suc (f t))) f (λ u h. ground arith))
]

pub total-const : (n c : ℕ) (f : ℕ → ℕ) → ((t : ℕ) → t < n → f t ≡ c) → total n f ≡ n * c
unfolding total
total-const zero c f same = omega arith
total-const (suc n) c f same =
    omega (arith, same n (omega arith), total-const n c f (λ t h. same t (omega arith)))

-- What holds of all threads still holds when one of them has moved on.
pub set_at-both :
    {A B : Type 0} (P : A → B → Type 0) (f : ℕ → A) (g : ℕ → B) (t u : ℕ) (a : A) (b : B)
    → (t ≡ u → P a b)
    → P (f u) (g u)
    → P (set_at f t a u) (set_at g t b u)
set_at-both P f g t u a b new old = elim (Bool-cases (t == u)) [
  | inl same ↦ rw same (new (ground arith))
  | inr other ↦ rw other old
]

module _ (key_size num : ℕ) where
  abbrev pub key_at : ℕ → ℕ → Bytes
  key_at t i = key_of key_size (seq_number num t i)

  module _ (n : ℕ) (fits : n * num ≤ 2 ^ 31) (room : n * num ≤ capacity key_size) where
    block : (t i : ℕ) → t < n → i < num → t * num + i < n * num
    block t i ht hi = omega (arith, mul-le-mul_right num ht)

    pub key_at-injective :
        (t u i j : ℕ)
        → t < n
        → u < n
        → i < num
        → j < num
        → key_at t i ≡ key_at u j
        → (t ≡ u) × (i ≡ j)
    key_at-injective t u i j ht hu hi hj e =
        let a = block t i ht hi in
        let b = block u j hu hj in
        let m = seq_number-eq num t i (omega arith) in
        let m' = seq_number-eq num u j (omega arith) in
        block_unique num t u i j hi hj (
          sym m
          ∙ (key_of-injective key_size (seq_number num t i) (seq_number num u j) (omega arith)
                (omega arith) e
              ∙ m'))

    -- What is known of a key after a round that has set the one of thread t, from what was known
    -- before: keys below a thread's round have the new value, the others the old one.
    pub own_after {ℓ} :
        {A : Type ℓ} (t u j : ℕ) (index : ℕ → ℕ) (new old o : A)
        → t < n
        → u < n
        → index t < num
        → j < num
        → o ≡ (
            if bytes_eq (key_at t (index t)) (key_at u j)
            then new
            else if ltb j (index u)
            then new
            else old)
        → o ≡ (if ltb j (set_at index t (suc (index t)) u) then new else old)
    own_after t u j index new old o ht hu hi hj e =
        elim (Bool-cases (bytes_eq (key_at t (index t)) (key_at u j))) [
          | inl hit ↦
              let (same, at) =
                key_at-injective t u (index t) j ht hu hi hj
                  (bytes_eq_sound (key_at t (index t)) (key_at u j) hit) in
              ground arith
          | inr miss ↦ elim (ℕ_discrete t u) [
            | yes same ↦ elim (ℕ_discrete j (index t)) [
              | yes at ↦ absurd (
                  cc (
                    miss,
                    sym (ap₂ (λ a b. bytes_eq (key_at t (index t)) (key_at a b)) same (sym at)),
                    bytes_eq_refl (key_at t (index t)),
                  ))
              | no off ↦ ground (arith, ap index same)
            ]
            | no apart ↦ ground arith
          ]
        ]
