-- ===== src/Bench/Environment/Trim.antt =====
-- `TrimSpace` takes off the white space at both ends, and nothing else.
use mss_kv_lab.Base.{
  ℕ, zero, suc, ◌+◌, ◌-◌, ◌≤◌, ◌<◌, ◌≡◌, refl, ap, ◌∙◌, Bool, true, false, not, ◌&&◌, inl, inr, [],
  ◌∷◌, ◌++◌, Bytes, length, length-append, get_or, take, drop, ltb, leb, arith, Bool-cases,
}
use mss_kv_lab.Bench.Environment.{is_space, first_kept, last_kept, trim_space}

abbrev pub all_space : Bytes → Bool
all_space [] = true
all_space (c ∷ cs) = is_space c && all_space cs

-- The string neither begins nor ends with a space.
abbrev pub starts_bare : Bytes → Bool
starts_bare [] = true
starts_bare (c ∷ cs) = not (is_space c)

abbrev pub ends_bare : Bytes → Bool
ends_bare [] = true
ends_bare (c ∷ []) = not (is_space c)
ends_bare (c ∷ d ∷ cs) = ends_bare (d ∷ cs)

first_kept-spaces :
    (k : ℕ) (a s : Bytes) → all_space a ≡ true → first_kept k (a ++ s) ≡ first_kept (k + length a) s
unfolding first_kept
first_kept-spaces k [] s h = ap (λ i. first_kept i s) (omega arith)
first_kept-spaces k (c ∷ cs) s h = elim (Bool-cases (is_space c)) [
  | inl e ↦
      rw e (first_kept-spaces (k + 1) cs s (rw e at h) ∙ ap (λ i. first_kept i s) (omega arith))
  | inr e ↦ cc (h, e)
]

get_or-skip : (a t : Bytes) (i j : ℕ) → i ≡ length a + j → get_or (a ++ t) i 0 ≡ get_or t j 0
get_or-skip [] t i j h = ap (λ k. get_or t k 0) (omega (arith, h))
get_or-skip (x ∷ a) t zero j h = ground (arith, h)
get_or-skip (x ∷ a) t (suc i) j h = get_or-skip a t i j (omega (arith, h))

get_or-within : (m b : Bytes) (i : ℕ) → i < length m → get_or (m ++ b) i 0 ≡ get_or m i 0
get_or-within [] b i h = ground (arith, h)
get_or-within (x ∷ m) b zero h = refl
get_or-within (x ∷ m) b (suc i) h = get_or-within m b i (omega (arith, h))

all_space-get_or :
    (b : Bytes) (i : ℕ) → all_space b ≡ true → i < length b → is_space (get_or b i 0) ≡ true
all_space-get_or [] i h k = ground (arith, k)
all_space-get_or (c ∷ b) zero h k = ground (arith, h)
all_space-get_or (c ∷ b) (suc i) h k = all_space-get_or b i (ground (arith, h)) (omega (arith, k))

ends_bare-get_or :
    (c : ℕ) (cs : Bytes)
    → ends_bare (c ∷ cs) ≡ true
    → is_space (get_or (c ∷ cs) (length cs) 0) ≡ false
ends_bare-get_or c [] h = ground (arith, h)
ends_bare-get_or c (d ∷ cs) h = ends_bare-get_or d cs h

drop-append : (a t : Bytes) → drop (length a) (a ++ t) ≡ t
drop-append [] t = refl
drop-append (x ∷ a) t = drop-append a t

pub take-append : (m b : Bytes) → take (length m) (m ++ b) ≡ m
take-append [] b = refl
take-append (x ∷ m) b = ap (λ r. x ∷ r) (take-append m b)

last_kept-spaces :
    (s : Bytes) (start n k : ℕ)
    → start ≤ n
    → n ≤ k
    → ((i : ℕ) → n ≤ i → i < k → is_space (get_or s i 0) ≡ true)
    → last_kept s start k ≡ last_kept s start n
unfolding last_kept
last_kept-spaces s start n zero h l all = let e : n ≡ 0 = omega (arith, l) in rw e refl
last_kept-spaces s start n (suc k) h l all = elim (Bool-cases (leb n k)) [
  | inl e ↦
      let le : n ≤ k = ground (arith, e) in
      let more : ltb start (suc k) ≡ true = ground (arith, h, le) in
      rw (more, all k le (omega arith))
        (last_kept-spaces s start n k h le (λ i u v. all i u (omega (arith, v))))
  | inr e ↦ let same : n ≡ suc k = ground (arith, e, l) in rw same refl
]

last_kept-stop :
    (s : Bytes) (start n : ℕ) → is_space (get_or s n 0) ≡ false → last_kept s start (suc n) ≡ suc n
unfolding last_kept
last_kept-stop s start n h = ground (arith, h)

first_kept-stop : (k c : ℕ) (cs : Bytes) → is_space c ≡ false → first_kept k (c ∷ cs) ≡ k
unfolding first_kept
first_kept-stop k c cs h = rw h refl

-- White space before and after a string that neither begins nor ends with white space is taken off.
pub trim_space-padded :
    (a : Bytes) (c : ℕ) (cs b : Bytes)
    → all_space a ≡ true
    → all_space b ≡ true
    → starts_bare (c ∷ cs) ≡ true
    → ends_bare (c ∷ cs) ≡ true
    → trim_space (a ++ ((c ∷ cs) ++ b)) ≡ c ∷ cs
unfolding trim_space
trim_space-padded a c cs b ha hb hs he =
    let m = c ∷ cs in
    let s = a ++ (m ++ b) in
    let first : first_kept 0 s ≡ length a =
      first_kept-spaces 0 a (m ++ b) ha
      ∙ (first_kept-stop (0 + length a) c (cs ++ b) (ground (arith, hs)) ∙ omega arith) in
    let size : length s ≡ length a + (length m + length b) =
      length-append a (m ++ b) ∙ omega (arith, length-append m b) in
    let last : last_kept s (length a) (length s) ≡ suc (length a + length cs) =
      last_kept-spaces s (length a) (suc (length a + length cs)) (length s) (omega arith)
        (omega (arith, size))
        (λ i u v.
          let j = i - suc (length a + length cs) in
          ap is_space (
            get_or-skip a (m ++ b) i (length m + j) (omega (arith, u))
            ∙ get_or-skip m b (length m + j) j refl)
          ∙ all_space-get_or b j hb (omega (arith, u, v, size)))
      ∙ last_kept-stop s (length a) (length a + length cs) (
          ap is_space (
            get_or-skip a (m ++ b) (length a + length cs) (length cs) refl
            ∙ get_or-within m b (length cs) (omega arith))
          ∙ ends_bare-get_or c cs he) in
    let long : suc (length a + length cs) - length a ≡ length m = omega arith in
    rw (first, last, long, drop-append a (m ++ b)) (take-append m b)
