-- ===== src/Bench/Flags/Invalid.antt =====
-- What the loop over the arguments in `main` refuses.
use mss_kv_lab.Base.{
  zero, suc, ◌≡◌, ◌≢◌, ◌⊎◌, inl, inr, refl, ap, ◌∙◌, Bool, false, ◌||◌, Option, none, some, List,
  [], ◌∷◌, ◌++◌, Bytes, codes, arith, Bool-cases,
}
use mss_kv_lab.Base.Int.{ℤ, pos, negsuc}
use mss_kv_lab.Base.Result.{done, fault, exited, ◌>>=◌}
use mss_kv_lab.Bench.Flags.{starts_with, Settings, first_taken, branches, parse_flag, parse_flags}
use mss_kv_lab.Bench.Flags.Decimal.{decimal}
use mss_kv_lab.Bench.Flags.Laws.{IsInt, Documented}

module _ (sscanf : Bytes → Bytes → Option ℤ) (doc : Documented sscanf) where
  abbrev pub flag_names : List Bytes
  flag_names =
      codes "--benchmarks="
      ∷ codes "--engine="
      ∷ codes "--histogram="
      ∷ codes "--num="
      ∷ codes "--reads="
      ∷ codes "--threads="
      ∷ codes "--key_size="
      ∷ codes "--value_size="
      ∷ codes "--readwritepercent="
      ∷ codes "--db_size_in_gb="
      ∷ codes "--db="
      ∷ []

  abbrev pub names_flag : List Bytes → Bytes → Bool
  names_flag [] arg = false
  names_flag (name ∷ names) arg = starts_with name arg || names_flag names arg

  -- No flag's name, or a histogram that is neither 0 nor 1.
  abbrev pub Refused : Bytes → Type 0
  Refused arg =
      (names_flag flag_names arg ≡ false)
      ⊎ ((n : ℤ) × IsInt n × (n ≢ pos 0) × (n ≢ pos 1) × (arg ≡ codes "--histogram=" ++ decimal n))

  abbrev Misses : Bytes → List Bytes → Type 0
  Misses arg [] = Unit
  Misses arg (name ∷ names) = (starts_with name arg ≡ false) × Misses arg names

  Misses-all : (arg : Bytes) (names : List Bytes) → names_flag names arg ≡ false → Misses arg names
  Misses-all arg [] h = tt
  Misses-all arg (name ∷ names) h = elim (Bool-cases (starts_with name arg)) [
    | inl e ↦ cc (h, e)
    | inr e ↦ (e, Misses-all arg names (rw e at h))
  ]

  unknown-refused :
      (arg : Bytes) (s : Settings)
      → names_flag flag_names arg ≡ false
      → parse_flag sscanf arg s ≡ fault (exited 1)
  unfolding parse_flag
  unknown-refused arg s h =
      let (e1, (e2, (e3, (e4, (e5, (e6, (e7, (e8, (e9, (e10, (e11, end))))))))))) =
        Misses-all arg flag_names h in
      rw
        (
          e1,
          e2,
          doc.fails _ arg e3,
          doc.fails _ arg e4,
          doc.fails _ arg e5,
          doc.fails _ arg e6,
          doc.fails _ arg e7,
          doc.fails _ arg e8,
          doc.fails _ arg e9,
          doc.fails _ arg e10,
          e11,
        )
        refl

  histogram-refused :
      (n : ℤ) (s : Settings)
      → IsInt n
      → n ≢ pos 0
      → n ≢ pos 1
      → parse_flag sscanf (codes "--histogram=" ++ decimal n) s ≡ fault (exited 1)
  unfolding parse_flag
  histogram-refused (pos zero) s h not0 not1 = ground (arith, not0)
  histogram-refused (pos (suc zero)) s h not0 not1 = ground (arith, not1)
  histogram-refused (pos (suc (suc n))) s h not0 not1 =
      let arg = codes "--histogram=" ++ decimal (pos (suc (suc n))) in
      rw
        (
          doc.reads (codes "--histogram=") (pos (suc (suc n))) h,
          doc.fails (codes "--num=") arg refl,
          doc.fails (codes "--reads=") arg refl,
          doc.fails (codes "--threads=") arg refl,
          doc.fails (codes "--key_size=") arg refl,
          doc.fails (codes "--value_size=") arg refl,
          doc.fails (codes "--readwritepercent=") arg refl,
          doc.fails (codes "--db_size_in_gb=") arg refl,
        )
        refl
  histogram-refused (negsuc n) s h not0 not1 =
      let arg = codes "--histogram=" ++ decimal (negsuc n) in
      rw
        (
          doc.reads (codes "--histogram=") (negsuc n) h,
          doc.fails (codes "--num=") arg refl,
          doc.fails (codes "--reads=") arg refl,
          doc.fails (codes "--threads=") arg refl,
          doc.fails (codes "--key_size=") arg refl,
          doc.fails (codes "--value_size=") arg refl,
          doc.fails (codes "--readwritepercent=") arg refl,
          doc.fails (codes "--db_size_in_gb=") arg refl,
        )
        refl

  first_taken-ends :
      (branches : List (Option Settings))
      → (first_taken branches ≡ fault (exited 1))
        ⊎ ((s : Settings) × (first_taken branches ≡ done s))
  first_taken-ends [] = inl refl
  first_taken-ends (none ∷ bs) = first_taken-ends bs
  first_taken-ends (some s ∷ bs) = inr (s, refl)

  parse_flag-ends :
      (arg : Bytes) (s : Settings)
      → (parse_flag sscanf arg s ≡ fault (exited 1))
        ⊎ ((s' : Settings) × (parse_flag sscanf arg s ≡ done s'))
  unfolding parse_flag
  parse_flag-ends arg s = first_taken-ends (branches sscanf arg s)

  refused_lem :
      (arg : Bytes) (s : Settings) → Refused arg → parse_flag sscanf arg s ≡ fault (exited 1)
  refused_lem arg s (inl h) = unknown-refused arg s h
  refused_lem arg s (inr (n, h, not0, not1, e)) = rw e (histogram-refused n s h not0 not1)

  -- One argument that is no flag, or that gives --histogram an int other than 0 and 1, ends the
  -- program by exit(1), wherever it stands and whatever the other arguments are.
  pub parse_flags-Refused :
      (before : List Bytes) (arg : Bytes) (after : List Bytes) (s : Settings)
      → Refused arg
      → parse_flags sscanf (before ++ (arg ∷ after)) s ≡ fault (exited 1)
  unfolding parse_flags
  parse_flags-Refused [] arg after s h =
      ap (λ r. r >>= parse_flags sscanf after) (refused_lem arg s h)
  parse_flags-Refused (b ∷ before) arg after s h = elim (parse_flag-ends b s) [
    | inl e ↦ ap (λ r. r >>= parse_flags sscanf (before ++ (arg ∷ after))) e
    | inr (s', e) ↦
        ap (λ r. r >>= parse_flags sscanf (before ++ (arg ∷ after))) e
        ∙ parse_flags-Refused before arg after s' h
  ]
