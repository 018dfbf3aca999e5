-- ===== src/Util/RandomData/Laws.antt =====
-- How long the strings are, and what is in them.
use mss_kv_lab.Base.{
  ℕ, zero, suc, ◌+◌, ◌*◌, ◌/◌, ◌≤◌, ◌<◌, ◌≡◌, refl, ap, [], ◌∷◌, ◌++◌, Bytes, length, take,
  length-append, length-take, ltb, arith, Bool-cases, inl, inr, ltb→le,
}
use mss_kv_lab.Util.Random.{Random, uniform}
use mss_kv_lab.Util.RandomData.{random_string, append_until, at_least_one, compressible_string}

-- Every byte is a printable character.
abbrev pub Printable : Bytes → Type 0
Printable [] = Unit
Printable (c ∷ cs) = (b' ' ≤ c) × (c ≤ b'~') × Printable cs

pub Printable-append : (xs ys : Bytes) → Printable xs → Printable ys → Printable (xs ++ ys)
Printable-append [] ys p q = q
Printable-append (x ∷ xs) ys (low, high, p) q = (low, high, Printable-append xs ys p q)

Printable-take : (n : ℕ) (xs : Bytes) → Printable xs → Printable (take n xs)
Printable-take zero xs p = tt
Printable-take (suc n) [] p = tt
Printable-take (suc n) (x ∷ xs) (low, high, p) = (low, high, Printable-take n xs p)

uniform-lt : (rnd : Random) (n : ℕ) → 0 < n → (uniform rnd n).0 < n
unfolding uniform
uniform-lt rnd n h = omega arith

pub random_string-Printable :
    (rnd : Random) (len : ℕ)
    → (length (random_string rnd len).0 ≡ len) × Printable (random_string rnd len).0
unfolding random_string
random_string-Printable rnd zero = (refl, tt)
random_string-Printable rnd (suc len) =
    let (size, all) = random_string-Printable (uniform rnd 95).1 len in
    (ap suc size, (omega arith, omega (arith, uniform-lt rnd 95 (omega arith)), all))

append_until-Printable :
    (fuel len : ℕ) (raw dst : Bytes)
    → Printable raw
    → Printable dst
    → Printable (append_until fuel len raw dst)
unfolding append_until
append_until-Printable zero len raw dst p q = q
append_until-Printable (suc fuel) len raw dst p q = elim (Bool-cases (ltb (length dst) len)) [
  | inl short ↦
      rw short (append_until-Printable fuel len raw (dst ++ raw) p (Printable-append dst raw q p))
  | inr long ↦ rw long q
]

-- The fuel is enough: the loop ends because the string is long enough.
append_until-long :
    (fuel len : ℕ) (raw dst : Bytes)
    → 0 < length raw
    → len ≤ length dst + fuel
    → len ≤ length (append_until fuel len raw dst)
unfolding append_until
append_until-long zero len raw dst some_raw enough = omega arith
append_until-long (suc fuel) len raw dst some_raw enough =
    elim (Bool-cases (ltb (length dst) len)) [
      | inl short ↦ rw short (
          append_until-long fuel len raw (dst ++ raw) some_raw
            (omega (arith, length-append dst raw)))
      | inr long ↦ rw long (ltb→le (length dst) len long)
    ]

-- `CompressibleString` makes exactly `len` printable characters, whatever the fraction.
pub compressible_string-Printable :
    (rnd : Random) (num den len : ℕ)
    → (length (compressible_string rnd num den len).0 ≡ len)
      × Printable (compressible_string rnd num den len).0
unfolding compressible_string
compressible_string-Printable rnd num den len =
    let raw = at_least_one (len * num / den) in
    let (size, all) = random_string-Printable rnd raw in
    let text = (random_string rnd raw).0 in
    let some_raw : 0 < length text = ground (arith, size) in
    (
      omega (
        arith,
        length-take len (append_until len len text []),
        append_until-long len len text [] some_raw (omega arith),
      ),
      Printable-take len _ (append_until-Printable len len text [] all tt),
    )
