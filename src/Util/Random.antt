-- ===== src/Util/Random.antt =====
-- bench/util/random.h: the generator that the workloads draw their keys from.
mod Tests
use mss_kv_lab.Base.{
  ℕ, ◌+◌, ◌-◌, ◌*◌, ◌/◌, ◌%◌, ◌^◌, ◌<◌, ◌≡◌, refl, Bool, ltb, ◌==◌, ◌||◌, if◌then◌else◌, arith,
}

-- `class Random`: its only field is `seed_`.
pub record Random : Type 0 where
  pub seed : ℕ

-- 2^31 - 1
abbrev pub modulus : ℕ
modulus = 2147483647

abbrev multiplier : ℕ
multiplier = 16807

-- The constructor; `s & 0x7fffffff` is a remainder by 2^31.
unfoldable pub random : ℕ → Random
random s =
    let seed = s % 2 ^ 31 in record { seed = if seed == 0 || seed == 2147483647 then 1 else seed }

-- `Next`: the 64-bit product, its two parts added up, and one subtraction at most.
unfoldable pub next : Random → ℕ × Random
next r =
    let product = (r.seed * multiplier) % 2 ^ 64 in
    let folded = (product / 2 ^ 31 + product % 2 ^ 31) % 2 ^ 32 in
    let seed = if ltb modulus folded then folded - modulus else folded in
    (seed, record { seed = seed })

-- REQUIRES: n > 0
unfoldable pub uniform : Random → ℕ → ℕ × Random
uniform r n = let (x, r') = next r in (x % n, r')

unfoldable pub one_in : Random → ℕ → Bool × Random
one_in r n = let (x, r') = next r in (x % n == 0, r')

unfoldable pub skewed : Random → ℕ → ℕ × Random
skewed r max_log = let (base, r') = uniform r (max_log + 1) in uniform r' (2 ^ base)

-- A seed that is neither 0 nor 2^31 - 1 modulo 2^31 - 1.
abbrev pub IsGood : Random → Type 0
IsGood r = (0 < r.seed) × (r.seed < modulus)

pub random-IsGood : (s : ℕ) → IsGood (random s)
unfolding random
random-IsGood s = ground arith

next-eq-mod : (r : Random) → IsGood r → (next r).0 ≡ (r.seed * multiplier) % modulus
unfolding next
next-eq-mod r good = ground arith

next-IsGood : (r : Random) → IsGood r → IsGood (next r).1
unfolding next
next-IsGood r good = ground arith

-- Two good seeds from which `Next` returns the same number are equal.
pub next-injective :
    (r r' : Random) → IsGood r → IsGood r' → (next r).0 ≡ (next r').0 → r.seed ≡ r'.seed
next-injective r r' good good' e = omega (arith, next-eq-mod r good, next-eq-mod r' good')

-- From a good seed the shift-and-add reduction computes seed * 16807 mod 2^31 - 1 exactly, in 64
-- and 32 bits; the next state is the value returned, and is good again.
pub next_lem :
    (r : Random)
    → IsGood r
    → ((next r).0 ≡ (r.seed * 16807) % 2147483647)
      × ((next r).1.seed ≡ (next r).0)
      × IsGood (next r).1
unfolding next
next_lem r good = (next-eq-mod r good, refl, next-IsGood r good)
