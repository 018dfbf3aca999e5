-- ===== src/Bench/Workload/Read.antt =====
-- `DoRead`: what it counts; the store stays as it is.
use mss_kv_lab.Base.{
  ℕ, zero, suc, ◌+◌, ◌≡◌, ◌≤◌, refl, ap, ap₂, ◌∙◌, Bool, true, List, [], ◌∷◌, Option, Bytes,
  bytes_eq_refl, length, arith, if◌then◌else◌,
}
use mss_kv_lab.Kv.{Pmkv}
use mss_kv_lab.Kv.Contract.{IsMap, is_some}
use mss_kv_lab.Util.Random.{Random}
use mss_kv_lab.Bench.Wrapper
use mss_kv_lab.Bench.Wrapper.{Status, not_found}
use mss_kv_lab.Bench.Wrapper.Laws.{Fits, get_lem, looked_up}
use mss_kv_lab.Bench.Stats
use mss_kv_lab.Bench.Stats.{Stats}
use mss_kv_lab.Bench.Stats.Laws.{finished_ops, done-finished_ops, message-finished_ops}
use mss_kv_lab.Bench.Keys.Distinct.{key_of, length-key_of}
use mss_kv_lab.Bench.Workload.{
  Config, Worker, pick_number, with_key, read_round, read_loop, do_read,
}
use mss_kv_lab.Bench.Workload.Drawn.{drawn, length-drawn, mem_key, key-with_key}

-- How many of the keys are there.
abbrev pub hits : (Bytes → Option Bytes) → List Bytes → ℕ
hits entry [] = 0
hits entry (k ∷ ks) = (if is_some (entry k) then 1 else 0) + hits entry ks

found_one :
    (o : Option Bytes) (r : Status × Bytes) (n : ℕ)
    → r ≡ looked_up o []
    → (elim r.0 [ Status.ok ↦ n + 1 | not_found ↦ n ]) ≡ n + (if is_some o then 1 else 0)
found_one o r n e = ground arith

-- Of keys that are all there, each is a hit.
pub hits_all :
    (cfg : Config) (seq : Bool) (tid : ℕ) (entry : Bytes → Option Bytes)
    → (n m i : ℕ) (rand : Random) → n ≤ m
    → ((j : Bytes) → mem_key j (drawn cfg seq tid m i rand) ≡ true → is_some (entry j) ≡ true)
    → hits entry (drawn cfg seq tid n i rand) ≡ n
unfolding drawn
hits_all cfg seq tid entry zero m i rand le there = refl
hits_all cfg seq tid entry (suc n) zero i rand le there = absurd (omega arith)
hits_all cfg seq tid entry (suc n) (suc m) i rand le there =
    let (k, rand') = pick_number cfg seq tid i rand in
    let key = key_of cfg.key_size k in
    let rest =
      hits_all cfg seq tid entry n m (i + 1) rand' (omega arith) (λ j p. there j (ground arith)) in
    ground (arith, rest, there key, bytes_eq_refl key)

module _ (kv : Pmkv) (map : IsMap kv) (cfg : Config) (seq : Bool) (tid : ℕ) where
  open map use {entry}

  record ReadAll (keys : List Bytes) (i : ℕ) (w w' : Worker kv) : Type 0 where
    pub store : w'.store ≡ w.store
    pub found : w'.found ≡ w.found + hits (entry w.store) keys
    pub stats : w'.stats ≡ finished_ops cfg.flags_histogram cfg.clock (length keys) i w.stats

  read_loop-ReadAll :
      (n i : ℕ) (w : Worker kv)
      → length w.key ≡ cfg.key_size
      → ((k : Bytes) → Fits (entry w.store k))
      → ReadAll (drawn cfg seq tid n i w.rand) i w (read_loop kv cfg seq tid n i w)
  unfolding read_loop read_round with_key drawn finished_ops
  read_loop-ReadAll zero i w h fits = record { store = refl; found = omega arith; stats = refl }
  read_loop-ReadAll (suc n) i w h fits =
      let k = key_of cfg.key_size (pick_number cfg seq tid i w.rand).0 in
      let w1 = read_round kv cfg seq tid i w in
      let key_is : w1.key ≡ k = key-with_key cfg seq tid kv i w h in
      let size : length w1.key ≡ cfg.key_size =
        ap length key_is ∙ length-key_of cfg.key_size (pick_number cfg seq tid i w.rand).0 in
      let rest = read_loop-ReadAll n (i + 1) w1 size fits in
      let one : w1.found ≡ w.found + (if is_some (entry w.store k) then 1 else 0) =
        found_one (entry w.store k) _ w.found
          (ap (λ j. Wrapper.get kv w.store j []) key_is ∙ get_lem kv map w.store k [] (fits k)) in
      record { store = rest.store; found = omega (arith, rest.found, one); stats = rest.stats }

  -- `DoRead` over a store that keeps the contract, with a key buffer of `key_size_` bytes, leaves
  -- the store as it is, counts `reads_` operations, and reports as found as many of its keys as
  -- have an entry, provided that the entries fit the buffer of `get`.
  pub do_read_lem :
      (missing : Bool) (w : Worker kv)
      → length w.key ≡ cfg.key_size
      → ((k : Bytes) → Fits (entry w.store k))
      → let w' = do_read kv cfg seq tid missing w in
        (w'.store ≡ w.store)
        × (w'.stats.ops_done ≡ w.stats.ops_done + cfg.reads)
        × (w'.stats.message
            ≡ Stats.append_with_space w.stats.message (
                cfg.found_text
                  (hits (entry w.store) (drawn cfg seq tid cfg.reads 0 w.rand))
                  cfg.reads))
  unfolding do_read Stats.add_message Stats.add_bytes
  do_read_lem missing w h fits =
      let w1 : Worker kv = record w { bytes = 0; found = 0 } in
      let keys = drawn cfg seq tid cfg.reads 0 w.rand in
      let all = read_loop-ReadAll cfg.reads 0 w1 h fits in
      let zero_plus : 0 + hits (entry w.store) keys ≡ hits (entry w.store) keys = omega arith in
      (
        all.store,
        ap (λ (s : Stats). s.ops_done) all.stats
            ∙ (done-finished_ops cfg.flags_histogram cfg.clock (length keys) 0 w.stats
                ∙ ap (λ n. w.stats.ops_done + n) (length-drawn cfg seq tid cfg.reads 0 w.rand)),
        ap₂ (λ m n. Stats.append_with_space m (cfg.found_text n cfg.reads))
            (ap (λ (s : Stats). s.message) all.stats
              ∙ message-finished_ops cfg.flags_histogram cfg.clock (length keys) 0 w.stats)
            (all.found ∙ zero_plus),
      )
