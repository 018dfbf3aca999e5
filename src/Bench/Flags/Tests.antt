-- ===== src/Bench/Flags/Tests.antt =====
-- The parsing of flags with a `sscanf` that reads decimal numerals, and the theorems about it at
-- concrete inputs.
use mss_kv_lab.Base.{
  ℕ, zero, suc, ◌+◌, ◌/◌, ◌%◌, ◌≡◌, refl, ap, ◌∙◌, true, false, Option, none, some, [], ◌∷◌, ◌++◌,
  Bytes, codes, arith, ltb, ◌==◌, if◌then◌else◌, Bool-cases, inl, inr,
}
use mss_kv_lab.Base.Int.{ℤ, pos, negsuc}
use mss_kv_lab.Base.Result.{done, fault, exited}
use mss_kv_lab.Bench.Flags.{
  benchmark, starts_with, Settings, defaults, parse_flag, parse_flags, settings_of,
}
use mss_kv_lab.Bench.Flags.Decimal.{digits, decimal, value_from, value_from-digits}
use mss_kv_lab.Bench.Flags.Invalid.{parse_flags-Refused}
use mss_kv_lab.Bench.Flags.Laws.{Documented, command_line, InRange, flags-command_line}

abbrev rest_after : Bytes → Bytes → Option Bytes
rest_after [] s = some s
rest_after (c ∷ cs) [] = none
rest_after (c ∷ cs) (d ∷ ds) = let rest = rest_after cs ds in if c == d then rest else none

abbrev unsigned : Bytes → Option ℕ
unsigned [] = none
unsigned (c ∷ cs) = value_from 0 (c ∷ cs)

abbrev negated : Option ℕ → Option ℤ
negated (some (suc n)) = some (negsuc n)
negated (some zero) = some (pos 0)
negated none = none

abbrev signed : Option ℕ → Bytes → Option ℤ
signed (some n) s = some (pos n)
signed none [] = none
signed none (c ∷ cs) = let n = unsigned cs in if c == 45 then negated n else none

abbrev read_int : Option Bytes → Option ℤ
read_int none = none
read_int (some s) = signed (unsigned s) s

abbrev read_format : Bytes → Bytes → Option ℤ
read_format prefix arg = read_int (rest_after prefix arg)

rest_after-append : (prefix s : Bytes) → rest_after prefix (prefix ++ s) ≡ some s
rest_after-append [] s = refl
rest_after-append (c ∷ cs) s = ground (arith, rest_after-append cs s)

rest_after-fails : (prefix s : Bytes) → starts_with prefix s ≡ false → rest_after prefix s ≡ none
rest_after-fails [] s h = cc h
rest_after-fails (c ∷ cs) [] h = refl
rest_after-fails (c ∷ cs) (d ∷ ds) h = elim (Bool-cases (c == d)) [
  | inl e ↦ rw e (rest_after-fails cs ds (rw e at h))
  | inr e ↦ rw e refl
]

unsigned-append : (xs : Bytes) (y : ℕ) → unsigned (xs ++ (y ∷ [])) ≡ value_from 0 (xs ++ (y ∷ []))
unsigned-append [] y = refl
unsigned-append (x ∷ xs) y = refl

unsigned-digits_eq : (fuel n : ℕ) → unsigned (digits fuel n) ≡ value_from 0 (digits fuel n)
unsigned-digits_eq zero n = refl
unsigned-digits_eq (suc fuel) n = elim (Bool-cases (ltb n 10)) [
  | inl e ↦ rw e refl
  | inr e ↦ rw e (unsigned-append (digits fuel (n / 10)) (n % 10 + 48))
]

unsigned-digits : (n : ℕ) → unsigned (digits n n) ≡ some n
unsigned-digits n = unsigned-digits_eq n n ∙ value_from-digits n n (omega arith)

read_int-decimal : (n : ℤ) → read_int (some (decimal n)) ≡ some n
read_int-decimal (pos n) = ap (λ o. signed o (digits n n)) (unsigned-digits n)
read_int-decimal (negsuc n) = ap negated (unsigned-digits (suc n))

read_format-Documented : Documented read_format
read_format-Documented = record {
  reads = λ prefix n h. ap read_int (rest_after-append prefix (decimal n)) ∙ read_int-decimal n;
  fails = λ prefix arg h. ap read_int (rest_after-fails prefix arg h);
}

abbrev asked : Settings
asked = record defaults {
  benchmarks = codes "fillseq,readseq";
  num = pos 1200;
  reads = negsuc 6;
  histogram = true;
  db = codes "/tmp/db";
}

asked-InRange : InRange asked
asked-InRange = omega arith

flags-command_line_example : parse_flags read_format (command_line asked) defaults ≡ done asked
flags-command_line_example =
    flags-command_line read_format read_format-Documented asked defaults asked-InRange

parse_flags-Refused_example :
    parse_flags read_format
      (codes "--num=5" ∷ codes "--histogram=2" ∷ codes "--reads=3" ∷ [])
      defaults
    ≡ fault (exited 1)
parse_flags-Refused_example =
    parse_flags-Refused read_format read_format-Documented (codes "--num=5" ∷ [])
      (codes "--histogram=2") (codes "--reads=3" ∷ []) defaults
      (inr (pos 2, omega arith, λ h. ground (arith, h), λ h. ground (arith, h), refl))

parsed :
    settings_of read_format (codes "pmkv_bench" ∷ codes "--num=50" ∷ codes "--reads=-7" ∷ [])
    ≡ done (record defaults { num = pos 50; reads = negsuc 6 })
unfolding settings_of parse_flags parse_flag
parsed = refl

junk_refused :
    settings_of read_format (codes "pmkv_bench" ∷ codes "--num=50k" ∷ []) ≡ fault (exited 1)
unfolding settings_of parse_flags parse_flag
junk_refused = refl

help : settings_of read_format (codes "pmkv_bench" ∷ codes "--help" ∷ []) ≡ fault (exited 1)
unfolding settings_of
help = refl

-- Without --reads the benchmark makes as many reads as there are keys.
default_reads : benchmark (record defaults { num = pos 50 }) ≡ record {
  num = pos 50;
  value_size = pos 100;
  key_size = pos 16;
  reads = pos 50;
  readwrites = pos 50;
}
default_reads = refl
