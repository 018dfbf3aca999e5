-- ===== src/Bench/Flags/Laws.antt =====
-- What the loop over the arguments in `main` accepts, and what it makes of it.
use mss_kv_lab.Base.{
  ◌^◌, ◌<◌, ◌≡◌, refl, ap, ◌∙◌, Bool, true, false, Option, none, some, List, [], ◌∷◌, ◌++◌, Bytes,
  codes, arith,
}
use mss_kv_lab.Base.Int.{ℤ, pos, negsuc}
use mss_kv_lab.Base.Result.{Result, done, ◌>>=◌}
use mss_kv_lab.Bench.Flags.{starts_with, Settings, parse_flag, parse_flags}
use mss_kv_lab.Bench.Flags.Decimal.{decimal}

-- The values of a 32-bit `int`.
abbrev pub IsInt : ℤ → Type 0
IsInt (pos n) = n < 2 ^ 31
IsInt (negsuc n) = n < 2 ^ 31

-- What the C library documents of `sscanf` for a format of plain characters, `%d` and `%c`.
pub record Documented (sscanf : Bytes → Bytes → Option ℤ) : Type 0 where
  pub reads : (prefix : Bytes) (n : ℤ) → IsInt n → sscanf prefix (prefix ++ decimal n) ≡ some n
  pub fails : (prefix arg : Bytes) → starts_with prefix arg ≡ false → sscanf prefix arg ≡ none

-- The command line that asks for the settings s.
abbrev bool_digit : Bool → Bytes
bool_digit false = decimal (pos 0)
bool_digit true = decimal (pos 1)

abbrev pub command_line : Settings → List Bytes
command_line s =
    (codes "--benchmarks=" ++ s.benchmarks)
    ∷ (codes "--engine=" ++ s.engine)
    ∷ (codes "--num=" ++ decimal s.num)
    ∷ (codes "--reads=" ++ decimal s.reads)
    ∷ (codes "--threads=" ++ decimal s.threads)
    ∷ (codes "--key_size=" ++ decimal s.key_size)
    ∷ (codes "--value_size=" ++ decimal s.value_size)
    ∷ (codes "--histogram=" ++ bool_digit s.histogram)
    ∷ (codes "--db=" ++ s.db)
    ∷ (codes "--db_size_in_gb=" ++ decimal s.db_size_in_gb)
    ∷ (codes "--readwritepercent=" ++ decimal s.readwritepercent)
    ∷ []

pub record InRange (s : Settings) : Type 0 where
  pub num : IsInt s.num
  pub reads : IsInt s.reads
  pub threads : IsInt s.threads
  pub key_size : IsInt s.key_size
  pub value_size : IsInt s.value_size
  pub db_size_in_gb : IsInt s.db_size_in_gb
  pub readwritepercent : IsInt s.readwritepercent

module _ (sscanf : Bytes → Bytes → Option ℤ) (doc : Documented sscanf) where
  -- The argument gives one setting its value.
  abbrev Sets : Bytes → (Settings → Settings) → Type 0
  Sets arg set = (s : Settings) → parse_flag sscanf arg s ≡ done (set s)

  benchmarks-Sets :
      (v : Bytes) → Sets (codes "--benchmarks=" ++ v) (λ s. record s { benchmarks = v })
  unfolding parse_flag
  benchmarks-Sets v s = refl

  engine-Sets : (v : Bytes) → Sets (codes "--engine=" ++ v) (λ s. record s { engine = v })
  unfolding parse_flag
  engine-Sets v s = refl

  num-Sets : (n : ℤ) → IsInt n → Sets (codes "--num=" ++ decimal n) (λ s. record s { num = n })
  unfolding parse_flag
  num-Sets n h s =
      let arg = codes "--num=" ++ decimal n in
      rw (doc.fails (codes "--histogram=") arg refl, doc.reads (codes "--num=") n h) refl

  reads-Sets :
      (n : ℤ) → IsInt n → Sets (codes "--reads=" ++ decimal n) (λ s. record s { reads = n })
  unfolding parse_flag
  reads-Sets n h s =
      let arg = codes "--reads=" ++ decimal n in
      rw
        (
          doc.fails (codes "--histogram=") arg refl,
          doc.fails (codes "--num=") arg refl,
          doc.reads (codes "--reads=") n h,
        )
        refl

  threads-Sets :
      (n : ℤ) → IsInt n → Sets (codes "--threads=" ++ decimal n) (λ s. record s { threads = n })
  unfolding parse_flag
  threads-Sets n h s =
      let arg = codes "--threads=" ++ decimal n in
      rw
        (
          doc.fails (codes "--histogram=") arg refl,
          doc.fails (codes "--num=") arg refl,
          doc.fails (codes "--reads=") arg refl,
          doc.reads (codes "--threads=") n h,
        )
        refl

  key_size-Sets :
      (n : ℤ) → IsInt n → Sets (codes "--key_size=" ++ decimal n) (λ s. record s { key_size = n })
  unfolding parse_flag
  key_size-Sets n h s =
      let arg = codes "--key_size=" ++ decimal n in
      rw
        (
          doc.fails (codes "--histogram=") arg refl,
          doc.fails (codes "--num=") arg refl,
          doc.fails (codes "--reads=") arg refl,
          doc.fails (codes "--threads=") arg refl,
          doc.reads (codes "--key_size=") n h,
        )
        refl

  value_size-Sets :
      (n : ℤ)
      → IsInt n
      → Sets (codes "--value_size=" ++ decimal n) (λ s. record s { value_size = n })
  unfolding parse_flag
  value_size-Sets n h s =
      let arg = codes "--value_size=" ++ decimal n in
      rw
        (
          doc.fails (codes "--histogram=") arg refl,
          doc.fails (codes "--num=") arg refl,
          doc.fails (codes "--reads=") arg refl,
          doc.fails (codes "--threads=") arg refl,
          doc.fails (codes "--key_size=") arg refl,
          doc.reads (codes "--value_size=") n h,
        )
        refl

  readwritepercent-Sets :
      (n : ℤ)
      → IsInt n
      → Sets (codes "--readwritepercent=" ++ decimal n) (λ s. record s { readwritepercent = n })
  unfolding parse_flag
  readwritepercent-Sets n h s =
      let arg = codes "--readwritepercent=" ++ decimal n in
      rw
        (
          doc.fails (codes "--histogram=") arg refl,
          doc.fails (codes "--num=") arg refl,
          doc.fails (codes "--reads=") arg refl,
          doc.fails (codes "--threads=") arg refl,
          doc.fails (codes "--key_size=") arg refl,
          doc.fails (codes "--value_size=") arg refl,
          doc.reads (codes "--readwritepercent=") n h,
        )
        refl

  db_size_in_gb-Sets :
      (n : ℤ)
      → IsInt n
      → Sets (codes "--db_size_in_gb=" ++ decimal n) (λ s. record s { db_size_in_gb = n })
  unfolding parse_flag
  db_size_in_gb-Sets n h s =
      let arg = codes "--db_size_in_gb=" ++ decimal n in
      rw
        (
          doc.fails (codes "--histogram=") arg refl,
          doc.fails (codes "--num=") arg refl,
          doc.fails (codes "--reads=") arg refl,
          doc.fails (codes "--threads=") arg refl,
          doc.fails (codes "--key_size=") arg refl,
          doc.fails (codes "--value_size=") arg refl,
          doc.fails (codes "--readwritepercent=") arg refl,
          doc.reads (codes "--db_size_in_gb=") n h,
        )
        refl

  db-Sets : (v : Bytes) → Sets (codes "--db=" ++ v) (λ s. record s { db = v })
  unfolding parse_flag
  db-Sets v s =
      let arg = codes "--db=" ++ v in
      rw
        (
          doc.fails (codes "--histogram=") arg refl,
          doc.fails (codes "--num=") arg refl,
          doc.fails (codes "--reads=") arg refl,
          doc.fails (codes "--threads=") arg refl,
          doc.fails (codes "--key_size=") arg refl,
          doc.fails (codes "--value_size=") arg refl,
          doc.fails (codes "--readwritepercent=") arg refl,
        )
        refl

  histogram-Sets :
      (b : Bool) → Sets (codes "--histogram=" ++ bool_digit b) (λ s. record s { histogram = b })
  unfolding parse_flag
  histogram-Sets false s = rw (doc.reads (codes "--histogram=") (pos 0) (omega arith)) refl
  histogram-Sets true s = rw (doc.reads (codes "--histogram=") (pos 1) (omega arith)) refl

  Sets-then :
      (arg : Bytes) (args : List Bytes) (set : Settings → Settings) (s : Settings)
      {r : Result Settings}
      → Sets arg set
      → parse_flags sscanf args (set s) ≡ r
      → parse_flags sscanf (arg ∷ args) s ≡ r
  unfolding parse_flags
  Sets-then arg args set s h k = ap (λ r. r >>= parse_flags sscanf args) (h s) ∙ k

  no_more : (s : Settings) → parse_flags sscanf [] s ≡ done s
  unfolding parse_flags
  no_more s = refl

  -- Every setting of the flags can be asked for: the command line that gives each flag the value
  -- that s has for it is accepted and yields s, whatever the settings were before, when the numbers
  -- of s are values of an int.
  pub flags-command_line :
      (s t : Settings) → InRange s → parse_flags sscanf (command_line s) t ≡ done s
  flags-command_line s t r = Sets-then _ _ _ _ (benchmarks-Sets s.benchmarks) (
      Sets-then _ _ _ _ (engine-Sets s.engine) (
        Sets-then _ _ _ _ (num-Sets s.num r.num) (
          Sets-then _ _ _ _ (reads-Sets s.reads r.reads) (
            Sets-then _ _ _ _ (threads-Sets s.threads r.threads) (
              Sets-then _ _ _ _ (key_size-Sets s.key_size r.key_size) (
                Sets-then _ _ _ _ (value_size-Sets s.value_size r.value_size) (
                  Sets-then _ _ _ _ (histogram-Sets s.histogram) (
                    Sets-then _ _ _ _ (db-Sets s.db) (
                      Sets-then _ _ _ _ (db_size_in_gb-Sets s.db_size_in_gb r.db_size_in_gb) (
                        Sets-then _ _ _ _
                          (readwritepercent-Sets s.readwritepercent r.readwritepercent)
                          (no_more _)))))))))))
