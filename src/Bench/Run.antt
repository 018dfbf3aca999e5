-- ===== src/Bench/Run.antt =====
-- `Benchmark::Run` and `Open` of bench/bench.cc: the list of benchmarks, and the store that they
-- share. What a benchmark's threads do to the store is a parameter, and so is `std::remove`.
mod Names
pub mod Laws
mod Tests
use mss_kv_lab.Base.{
  ℕ, zero, suc, ◌+◌, ◌*◌, ◌%◌, ◌^◌, Bool, true, false, Option, none, some, List, [], ◌∷◌, Bytes,
  bytes_eq, codes, length, ltb, ◌==◌, if◌then◌else◌,
}
use mss_kv_lab.Base.Result.{Result, done, fault, ◌>>=◌}
use mss_kv_lab.Kv.{Pmkv}
use mss_kv_lab.Bench.Wrapper

-- `strchr(benchmarks, ',')`, as the part before the comma and what follows it, if there is one.
abbrev pub cut : Bytes → Bytes × Option Bytes
cut [] = ([], none)
cut (c ∷ cs) = let (name, rest) = cut cs in if c == b',' then ([], some cs) else (c ∷ name, rest)

-- The names of the loop in `Run`, on fuel; a round more than the string is long is enough.
unfoldable pub names_of : ℕ → Option Bytes → List Bytes
names_of fuel none = []
names_of zero (some benchmarks) = []
names_of (suc fuel) (some benchmarks) =
    let (name, rest) = cut benchmarks in name ∷ names_of fuel rest

unfoldable pub names : Bytes → List Bytes
names benchmarks = names_of (suc (length benchmarks)) (some benchmarks)

-- The pointers to methods that `Run` assigns.
pub data Method : Type 0 where
  write_seq write_random read_seq read_random read_missing : Method
  delete_seq delete_random read_while_writing read_random_write_random : Method

-- `method`, `fresh_db` and what is added to `num_threads`
pub record Chosen : Type 0 where
  pub method : Option Method
  pub fresh_db : Bool
  pub more_threads : ℕ

abbrev pub plain : Method → Chosen
plain m = record { method = some m; fresh_db = false; more_threads = 0 }

abbrev pub fresh : Method → Chosen
fresh m = record { method = some m; fresh_db = true; more_threads = 0 }

-- The chain of tests on `name`.
unfoldable pub chosen : Bytes → Chosen
chosen name =
    if bytes_eq name (codes "fillseq")
    then fresh write_seq
    else if bytes_eq name (codes "fillrandom")
    then fresh write_random
    else if bytes_eq name (codes "overwrite")
    then plain write_random
    else if bytes_eq name (codes "readseq")
    then plain read_seq
    else if bytes_eq name (codes "readrandom")
    then plain read_random
    else if bytes_eq name (codes "readmissing")
    then plain read_missing
    else if bytes_eq name (codes "deleteseq")
    then plain delete_seq
    else if bytes_eq name (codes "deleterandom")
    then plain delete_random
    else if bytes_eq name (codes "readwhilewriting")
    then record { method = some read_while_writing; fresh_db = false; more_threads = 1 }
    else if bytes_eq name (codes "readrandomwriterandom")
    then plain read_random_write_random
    else record { method = none; fresh_db = false; more_threads = 0 }

pub record Flags : Type 0 where
  pub benchmarks : Bytes
  pub db : Bytes
  pub db_size_in_gb : ℕ
  pub threads : ℕ

module _ (kv : Pmkv) (remove_file : kv.World → kv.World)
    (run_benchmark : Method → ℕ → kv.Store → Result kv.Store) (flags : Flags) where
  -- `kv_`, and all that lies outside the process.
  abbrev pub State : Type 0
  State = Option kv.Store × kv.World

  -- `1024ULL * 1024ULL * 1024ULL * FLAGS_db_size_in_gb`
  abbrev pub pool_size : ℕ
  pool_size = (2 ^ 30 * flags.db_size_in_gb) % 2 ^ 64

  -- `Open`
  unfoldable pub open_db : Bool → kv.World → Result (kv.Store × kv.World)
  open_db fresh_db w =
      Wrapper.construct kv flags.db pool_size fresh_db (if fresh_db then remove_file w else w)

  -- `if (kv_ != NULL) { delete kv_; kv_ = NULL; }`
  abbrev pub closed : State → kv.World
  closed (none, w) = w
  closed (some s, w) = Wrapper.destroy kv s w

  -- `if (fresh_db) { … }`
  unfoldable pub start_over : Bool → State → State
  start_over false s = s
  start_over true s =
      let w = closed s in (none, if ltb 0 flags.db_size_in_gb then remove_file w else w)

  -- `if (kv_ == NULL) { Open(fresh_db); }`
  unfoldable pub ensure_open : Bool → State → Result (kv.Store × kv.World)
  ensure_open fresh_db (none, w) = open_db fresh_db w
  ensure_open fresh_db (some s, w) = done (s, w)

  -- `if (method != NULL) { RunBenchmark(num_threads, name, method); }`
  unfoldable pub run_method : Option Method → ℕ → kv.Store × kv.World → Result State
  run_method none n (s, w) = done (some s, w)
  run_method (some m) n (s, w) = do s' ← run_benchmark m n s; done (some s', w)

  -- One round of the loop in `Run`.
  unfoldable pub run_name : Bytes → State → Result State
  run_name name s =
      let c = chosen name in
      do
        opened ← ensure_open c.fresh_db (start_over c.fresh_db s)
        run_method c.method (flags.threads + c.more_threads) opened

  unfoldable pub run_names : List Bytes → State → Result State
  run_names [] s = done s
  run_names (name ∷ rest) s = do s' ← run_name name s; run_names rest s'

  unfoldable pub run : State → Result State
  run s = run_names (names flags.benchmarks) s
