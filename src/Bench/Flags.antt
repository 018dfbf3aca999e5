-- ===== src/Bench/Flags.antt =====
-- The flags of bench/bench.cc and their parsing in `main`. `sscanf` is a parameter.
pub mod Decimal
pub mod Laws
pub mod Invalid
mod Tests
use mss_kv_lab.Base.{
  ℕ, zero, suc, Bool, true, false, ◌&&◌, ◌||◌, Option, none, some, List, [], ◌∷◌, Bytes, bytes_eq,
  codes, drop, ◌==◌, if◌then◌else◌,
}
use mss_kv_lab.Base.Int.{ℤ, pos, negsuc, ltb_ℤ}
use mss_kv_lab.Base.Result.{Result, done, fault, exited, ◌>>=◌}

-- `leveldb::Slice(s).starts_with(prefix)`, and `strncmp` with the length of the prefix.
abbrev pub starts_with : Bytes → Bytes → Bool
starts_with [] s = true
starts_with (c ∷ cs) [] = false
starts_with (c ∷ cs) (d ∷ ds) = c == d && starts_with cs ds

-- The variables that `main` sets. Each number is an `int`.
pub record Settings : Type 0 where
  pub benchmarks : Bytes
  pub engine : Bytes
  pub num : ℤ
  pub reads : ℤ
  pub threads : ℤ
  pub key_size : ℤ
  pub value_size : ℤ
  pub histogram : Bool
  pub db : Bytes
  pub db_size_in_gb : ℤ
  pub readwritepercent : ℤ

abbrev pub defaults : Settings
defaults = record {
  benchmarks =
      codes
        "fillseq,fillrandom,overwrite,readseq,readrandom,readmissing,deleteseq,deleterandom,readwhilewriting,readrandomwriterandom";
  engine = codes "pmkv";
  num = pos 1000000;
  reads = negsuc 0;
  threads = pos 1;
  key_size = pos 16;
  value_size = pos 100;
  histogram = false;
  db = codes "/mnt/ramdisk/bench";
  db_size_in_gb = pos 1;
  readwritepercent = pos 90;
}

-- The tests of `argv[1]` for a request of the usage text.
abbrev pub asks_usage : List Bytes → Bool
asks_usage [] = false
asks_usage (arg ∷ args) =
    bytes_eq arg (codes "?")
    || bytes_eq arg (codes "-?")
    || bytes_eq arg (codes "h")
    || bytes_eq arg (codes "-h")
    || bytes_eq arg (codes "-help")
    || bytes_eq arg (codes "--help")

-- `if (…) { … } else if (…) …`: the first branch that is taken, and the last `else`.
abbrev pub first_taken : List (Option Settings) → Result Settings
first_taken [] = fault (exited 1)
first_taken (none ∷ branches) = first_taken branches
first_taken (some s ∷ branches) = done s

abbrev pub text_of : Bool → Settings → Option Settings
text_of true s = some s
text_of false s = none

abbrev pub int_of : Option ℤ → (ℤ → Settings) → Option Settings
int_of (some n) set = some (set n)
int_of none set = none

-- `&& (n == 0 || n == 1)`
abbrev pub bool_of : Option ℤ → (Bool → Settings) → Option Settings
bool_of (some (pos zero)) set = some (set false)
bool_of (some (pos (suc zero))) set = some (set true)
bool_of (some (pos (suc (suc n)))) set = none
bool_of (some (negsuc n)) set = none
bool_of none set = none

-- `sscanf format arg`: the n of `sscanf(arg, format "%d%c", &n, &junk)` when it returns 1.
module _ (sscanf : Bytes → Bytes → Option ℤ) where
  -- The tests of the loop, in their order.
  abbrev pub branches : Bytes → Settings → List (Option Settings)
  branches arg s =
      text_of (starts_with (codes "--benchmarks=") arg) (record s { benchmarks = drop 13 arg })
      ∷ text_of (starts_with (codes "--engine=") arg) (record s { engine = drop 9 arg })
      ∷ bool_of (sscanf (codes "--histogram=") arg) (λ b. record s { histogram = b })
      ∷ int_of (sscanf (codes "--num=") arg) (λ n. record s { num = n })
      ∷ int_of (sscanf (codes "--reads=") arg) (λ n. record s { reads = n })
      ∷ int_of (sscanf (codes "--threads=") arg) (λ n. record s { threads = n })
      ∷ int_of (sscanf (codes "--key_size=") arg) (λ n. record s { key_size = n })
      ∷ int_of (sscanf (codes "--value_size=") arg) (λ n. record s { value_size = n })
      ∷ int_of (sscanf (codes "--readwritepercent=") arg) (λ n. record s { readwritepercent = n })
      ∷ text_of (starts_with (codes "--db=") arg) (record s { db = drop 5 arg })
      ∷ int_of (sscanf (codes "--db_size_in_gb=") arg) (λ n. record s { db_size_in_gb = n })
      ∷ []

  -- One round of the loop.
  unfoldable pub parse_flag : Bytes → Settings → Result Settings
  parse_flag arg s = first_taken (branches arg s)

  unfoldable pub parse_flags : List Bytes → Settings → Result Settings
  parse_flags [] s = done s
  parse_flags (arg ∷ args) s = do s' ← parse_flag arg s; parse_flags args s'

  -- `main` up to the run of the benchmark.
  unfoldable pub settings_of : List Bytes → Result Settings
  unfolding parse_flags
  settings_of argv =
      let args = drop 1 argv in
      if asks_usage args then fault (exited 1) else parse_flags args defaults

-- The members that the constructor of `Benchmark` takes from the flags.
pub record Parameters : Type 0 where
  pub num : ℤ
  pub value_size : ℤ
  pub key_size : ℤ
  pub reads : ℤ
  pub readwrites : ℤ

-- `FLAGS_reads < 0 ? FLAGS_num : FLAGS_reads`
abbrev pub reads_of : Settings → ℤ
reads_of s = if ltb_ℤ s.reads (pos 0) then s.num else s.reads

abbrev pub benchmark : Settings → Parameters
benchmark s = record {
  num = s.num;
  value_size = s.value_size;
  key_size = s.key_size;
  reads = reads_of s;
  readwrites = reads_of s;
}
