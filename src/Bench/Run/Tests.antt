-- ===== src/Bench/Run/Tests.antt =====
-- The list of the benchmark's own tests, over a store in memory.
use mss_kv_lab.Base.{inl, ℕ, ◌≡◌, refl, none, some, [], ◌∷◌, codes, Option}
use mss_kv_lab.Base.Result.{Result, done}
use mss_kv_lab.Kv.Ram.{RamStore, ram, ram-IsMap, empty, updated}
use mss_kv_lab.Bench.Wrapper
use mss_kv_lab.Bench.Wrapper.Laws.{IsEmpty}
use mss_kv_lab.Bench.Run.{
  Method, write_seq, chosen, Flags, names_of, names, open_db, start_over, ensure_open, run_method,
  run_name,
}
use mss_kv_lab.Bench.Run.Names.{AllNoComma, joined, joined-names}
use mss_kv_lab.Bench.Run.Laws.{filling-IsEmpty}

three_names : names (codes "fillseq,,readseq") ≡ codes "fillseq" ∷ [] ∷ codes "readseq" ∷ []
unfolding names names_of
three_names = refl

joined-names_example :
    (joined (names (codes "fillseq,,readseq")) ≡ codes "fillseq,,readseq")
    × AllNoComma (names (codes "fillseq,,readseq"))
joined-names_example = joined-names (codes "fillseq,,readseq")

abbrev flags : Flags
flags = record { benchmarks = codes "fillseq"; db = codes "/pool"; db_size_in_gb = 1; threads = 2 }

abbrev remove_file : Option RamStore → Option RamStore
remove_file w = none

-- A benchmark that puts one entry.
abbrev put_one : Method → ℕ → RamStore → Result RamStore
put_one m n s = done (updated s (1 ∷ []) (n ∷ []))

abbrev used : RamStore
used = updated (empty 5) (9 ∷ []) (9 ∷ [])

abbrev filled : RamStore
filled = updated (empty 1073741824) (1 ∷ []) (2 ∷ [])

abbrev after : Option RamStore × Option RamStore
after = (some filled, none)

filling-IsEmpty_example :
    (s s' : RamStore) × (w : Option RamStore) × IsEmpty ram ram-IsMap s
    × (put_one write_seq 2 s ≡ done s')
    × (after ≡ (some s', w))
unfolding chosen run_name start_over ensure_open open_db run_method Wrapper.construct
    Wrapper.destroy Wrapper.opened
filling-IsEmpty_example =
    filling-IsEmpty ram ram-IsMap remove_file put_one flags (codes "fillseq") write_seq
      (some used, none) after (inl (refl, refl)) refl
