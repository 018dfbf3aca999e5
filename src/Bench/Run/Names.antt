-- ===== src/Bench/Run/Names.antt =====
-- How the list of benchmarks is split.
use mss_kv_lab.Base.{
  ℕ, zero, suc, ◌+◌, ◌≤◌, ◌≡◌, ◌≢◌, refl, ap, ◌∙◌, Option, none, some, List, [], ◌∷◌, ◌++◌, Bytes,
  length, ◌==◌, arith, Bool-cases, inl, inr,
}
use mss_kv_lab.Bench.Run.{cut, names_of, names}

abbrev pub HasNoComma : Bytes → Type 0
HasNoComma [] = Unit
HasNoComma (c ∷ cs) = (c ≢ b',') × HasNoComma cs

abbrev pub AllNoComma : List Bytes → Type 0
AllNoComma [] = Unit
AllNoComma (n ∷ ns) = HasNoComma n × AllNoComma ns

-- The names with a comma between any two.
abbrev pub joined : List Bytes → Bytes
joined [] = []
joined (n ∷ []) = n
joined (n ∷ m ∷ ns) = n ++ (b',' ∷ joined (m ∷ ns))

abbrev rejoin : Bytes × Option Bytes → Bytes
rejoin (n, none) = n
rejoin (n, some rest) = n ++ (b',' ∷ rest)

abbrev size_of : Option Bytes → ℕ
size_of none = 0
size_of (some s) = length s + 1

rejoin_cons : (c : ℕ) (n : Bytes) (o : Option Bytes) → rejoin (c ∷ n, o) ≡ c ∷ rejoin (n, o)
rejoin_cons c n none = refl
rejoin_cons c n (some rest) = refl

cut_lem : (s : Bytes) → (rejoin (cut s) ≡ s) × HasNoComma (cut s).0 × (size_of (cut s).1 ≤ length s)
cut_lem [] = (refl, tt, omega arith)
cut_lem (c ∷ cs) =
    let (whole, no_comma, shorter) = cut_lem cs in
    elim (Bool-cases (c == b',')) [
      | inl comma ↦
          let is_comma : b',' ≡ c = ground arith in
          rw comma (ap (λ d. d ∷ cs) is_comma, tt, omega arith)
      | inr other ↦ rw other (
        rejoin_cons c (cut cs).0 (cut cs).1 ∙ ap (λ t. c ∷ t) whole,
        ((λ e. ground arith), no_comma),
        omega (arith, shorter),
      )
    ]

joined_lem :
    (fuel : ℕ) (n : Bytes) (o : Option Bytes)
    → size_of o ≤ fuel
    → joined (n ∷ names_of fuel o) ≡ rejoin (n, o)
unfolding names_of
joined_lem zero n none le = refl
joined_lem (suc fuel) n none le = refl
joined_lem zero n (some s) le = absurd (omega arith)
joined_lem (suc fuel) n (some s) le =
    let (whole, _, shorter) = cut_lem s in
    ap (λ t. n ++ (b',' ∷ t)) (joined_lem fuel (cut s).0 (cut s).1 (omega (arith, shorter)) ∙ whole)

names_of-HasNoComma : (fuel : ℕ) (o : Option Bytes) → AllNoComma (names_of fuel o)
unfolding names_of
names_of-HasNoComma zero none = tt
names_of-HasNoComma (suc fuel) none = tt
names_of-HasNoComma zero (some s) = tt
names_of-HasNoComma (suc fuel) (some s) = ((cut_lem s).1, names_of-HasNoComma fuel (cut s).1)

-- The loop of `Run` goes through the whole list: the names, with commas put back between them, are
-- the string, and no name holds a comma.
pub joined-names : (s : Bytes) → (joined (names s) ≡ s) × AllNoComma (names s)
unfolding names names_of
joined-names s =
    let (whole, no_comma, shorter) = cut_lem s in
    (
      joined_lem (length s) (cut s).0 (cut s).1 shorter ∙ whole,
      (no_comma, names_of-HasNoComma (length s) (cut s).1),
    )
