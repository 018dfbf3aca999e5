-- ===== src/Bench/Flags/Decimal.antt =====
-- Decimal numerals, as `%d` reads them.
use mss_kv_lab.Base.{
  ℕ, zero, suc, ◌+◌, ◌-◌, ◌*◌, ◌/◌, ◌%◌, ◌≤◌, ◌<◌, ◌≡◌, ap, ◌∙◌, Bool, true, false, ◌&&◌, Option,
  none, some, [], ◌∷◌, ◌++◌, Bytes, arith, ltb, leb, if◌then◌else◌, Bool-cases, inl, inr,
}
use mss_kv_lab.Base.Int.{ℤ, pos, negsuc}

-- The digits of n; as much fuel as n is enough.
abbrev pub digits : ℕ → ℕ → Bytes
digits zero n = (n + 48) ∷ []
digits (suc fuel) n =
    let rest = digits fuel (n / 10) in
    if ltb n 10 then (n + 48) ∷ [] else rest ++ ((n % 10 + 48) ∷ [])

abbrev pub decimal : ℤ → Bytes
decimal (pos n) = digits n n
decimal (negsuc n) = 45 ∷ digits (suc n) (suc n)

abbrev pub value_from : ℕ → Bytes → Option ℕ
value_from n [] = some n
value_from n (c ∷ cs) =
    let rest = value_from (n * 10 + (c - 48)) cs in if leb 48 c && leb c 57 then rest else none

value_from-append :
    (n m : ℕ) (xs ys : Bytes) → value_from n xs ≡ some m → value_from n (xs ++ ys) ≡ value_from m ys
value_from-append n m [] ys e = ap (λ o. elim o [ none ↦ none | some k ↦ value_from k ys ]) e
value_from-append n m (x ∷ xs) ys e =
    go (leb 48 x && leb x 57) (value_from-append (n * 10 + (x - 48)) m xs ys) e
  where
    go :
        (b : Bool)
        → (value_from (n * 10 + (x - 48)) xs ≡ some m
            → value_from (n * 10 + (x - 48)) (xs ++ ys) ≡ value_from m ys)
        → (if b then value_from (n * 10 + (x - 48)) xs else none) ≡ some m
        → (if b then value_from (n * 10 + (x - 48)) (xs ++ ys) else none) ≡ value_from m ys
    go true inner e = inner e
    go false inner e = cc e

digit-value : (n d : ℕ) → d < 10 → value_from n ((d + 48) ∷ []) ≡ some (n * 10 + d)
digit-value n d h = ground (arith, h)

pub value_from-digits : (fuel n : ℕ) → n ≤ fuel → value_from 0 (digits fuel n) ≡ some n
value_from-digits zero n h = ground (arith, h)
value_from-digits (suc fuel) n h = elim (Bool-cases (ltb n 10)) [
  | inl e ↦ rw e (digit-value 0 n (ground (arith, e)) ∙ ap some (omega arith))
  | inr e ↦ rw e (
      value_from-append 0 (n / 10) (digits fuel (n / 10)) ((n % 10 + 48) ∷ [])
        (value_from-digits fuel (n / 10) (ground (arith, h, e)))
      ∙ (digit-value (n / 10) (n % 10) (ground arith) ∙ ap some (omega arith)))
]
