-- ===== src/Bench/Workload/Sequence.antt =====
-- Workloads that follow one another over the same keys, as in the benchmark's own lists
-- (`fillseq,readseq`, `fillrandom,readmissing`, `fillseq,deleteseq`). `RunBenchmark` makes new
-- thread states for each, so their generators start from the same seed again.
use mss_kv_lab.Base.{
  ℕ, ◌≡◌, ◌≤◌, refl, ap, ◌∙◌, Bool, true, false, not, List, [], ◌∷◌, Option, some, none, Bytes,
  bytes_eq, bytes_eq_refl, ◌||◌, length, length-replicate, arith, if◌then◌else◌,
}
use mss_kv_lab.Base.Result.{done}
use mss_kv_lab.Kv.{Pmkv, max_val_len}
use mss_kv_lab.Kv.Contract.{IsMap, is_some}
use mss_kv_lab.Bench.Wrapper.Laws.{Fits}
use mss_kv_lab.Bench.Stats
use mss_kv_lab.Bench.Workload.{Config, Worker, do_write, do_read, do_delete}
use mss_kv_lab.Bench.Workload.Drawn.{drawn, mem_key, new_keys}
use mss_kv_lab.Bench.Workload.Write.{value, Filled, do_write-Filled}
use mss_kv_lab.Bench.Workload.Read.{hits, hits_all, do_read_lem}
use mss_kv_lab.Bench.Workload.Delete.{do_delete_lem}

-- `new_keys` reads its test at the keys of the list only.
new_keys_ext :
    (p q : Bytes → Bool) (ks : List Bytes)
    → ((j : Bytes) → mem_key j ks ≡ true → p j ≡ q j)
    → new_keys p ks ≡ new_keys q ks
new_keys_ext p q [] same = refl
new_keys_ext p q (k ∷ ks) same =
    let rest =
      new_keys_ext (λ j. bytes_eq k j || p j) (λ j. bytes_eq k j || q j) ks
        (λ j m. ap (λ b. bytes_eq k j || b) (same j (ground arith))) in
    ground (arith, rest, same k, bytes_eq_refl k)

pub Fits-if :
    (b : Bool) (o o' : Option Bytes) (v : Bytes)
    → o ≡ (if b then some v else o')
    → length v ≤ max_val_len
    → Fits o'
    → Fits o
Fits-if true o o' v e small fits = rw e small
Fits-if false o o' v e small fits = rw e fits

module _ (kv : Pmkv) (map : IsMap kv) (cfg : Config) (seq : Bool) (tid : ℕ) where
  open map use {entry, count}

  module _ (w w' v : Worker kv) (key : length w.key ≡ cfg.key_size)
      (filled : do_write kv cfg seq tid w ≡ done w') (same_store : v.store ≡ w'.store)
      (same_seed : v.rand ≡ w.rand) (key' : length v.key ≡ cfg.key_size) where
    after : Filled kv map cfg seq tid w w'
    after = do_write-Filled kv map cfg seq tid w w' key filled

    keys : List Bytes
    keys = drawn cfg seq tid cfg.num 0 w.rand

    entries :
        (j : Bytes)
        → entry v.store j
          ≡ (if mem_key j keys then some (value kv map cfg seq tid) else entry w.store j)
    unfolding keys
    entries j = ap (λ s. entry s j) same_store ∙ after.entries j

    same_keys : (n : ℕ) → drawn cfg seq tid n 0 v.rand ≡ drawn cfg seq tid n 0 w.rand
    same_keys n = ap (drawn cfg seq tid n 0) same_seed

    -- A `DoRead` that follows a `DoWrite` of the same kind and thread that returned, on its store,
    -- with the same seed and as many keys or fewer, finds every key, whether it is called
    -- `readmissing` or not; provided that no value, new or old, is longer than MAX_VAL_LEN and the
    -- key buffers have `key_size_` bytes.
    pub read_back :
        (missing : Bool)
        → cfg.reads ≤ cfg.num
        → cfg.value_size ≤ max_val_len
        → ((k : Bytes) → Fits (entry w.store k))
        → (do_read kv cfg seq tid missing v).stats.message
          ≡ Stats.append_with_space v.stats.message (cfg.found_text cfg.reads cfg.reads)
    unfolding keys
    read_back missing fewer small fits =
        let fits' : (k : Bytes) → Fits (entry v.store k) = λ k.
          Fits-if (mem_key k keys) (entry v.store k) (entry w.store k) (value kv map cfg seq tid)
            (entries k) (omega (arith, length-replicate {A = ℕ} cfg.value_size b'X')) (fits k) in
        let all : hits (entry v.store) (drawn cfg seq tid cfg.reads 0 v.rand) ≡ cfg.reads =
          ap (hits (entry v.store)) (same_keys cfg.reads)
          ∙ hits_all cfg seq tid (entry v.store) cfg.reads cfg.num 0 w.rand fewer
              (λ j p. ground (arith, entries j)) in
        (do_read_lem kv map cfg seq tid missing v key' fits').2
        ∙ ap (λ n. Stats.append_with_space v.stats.message (cfg.found_text n cfg.reads)) all

    -- A `DoDelete` that follows a `DoWrite` of the same kind and thread that returned, on its
    -- store and with the same seed, brings the number of entries back to what it was, provided
    -- that none of the keys was there before and the key buffers have `key_size_` bytes.
    pub delete_back :
        ((j : Bytes)
          → mem_key j (drawn cfg seq tid cfg.num 0 w.rand) ≡ true
          → entry w.store j ≡ none)
        → count (do_delete kv cfg seq tid v).store ≡ count w.store
    unfolding keys
    delete_back fresh =
        let lost =
          new_keys_ext (λ j. not (is_some (entry v.store j))) (λ j. is_some (entry w.store j)) keys
            (λ j p. ground (arith, entries j, fresh j)) in
        omega (
          arith,
          (do_delete_lem kv map cfg seq tid v key').1,
          ap (new_keys (λ j. not (is_some (entry v.store j)))) (same_keys cfg.num),
          lost,
          after.counted,
          ap count same_store,
        )
