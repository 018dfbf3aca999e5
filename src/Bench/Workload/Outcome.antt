-- ===== src/Bench/Workload/Outcome.antt =====
-- How `DoWrite` ends: by an exception of the wrapper, or with everything written.
use mss_kv_lab.Base.{
  ℕ, zero, suc, ◌+◌, ◌≡◌, ◌≢◌, refl, ◌⊎◌, inl, inr, Bool, Bytes, length, replicate, arith,
  Bool-cases, ◌==◌,
}
use mss_kv_lab.Base.Result.{Result, done, fault, runtime_error, ◌>>=◌}
use mss_kv_lab.Kv.{Pmkv}
use mss_kv_lab.Kv.Contract.{IsMap}
use mss_kv_lab.Bench.Wrapper
use mss_kv_lab.Bench.Wrapper.{Status}
use mss_kv_lab.Bench.Stats
use mss_kv_lab.Bench.Workload.{
  Config, Worker, with_key, write_round, write_loop, announced, do_write,
}
use mss_kv_lab.Bench.Workload.Write.{Filled, do_write-Filled}

-- Some call of `pmkv_put` reports a failure.
abbrev pub Refuses : Pmkv → Type 0
Refuses kv = (s : kv.Store) × (k : Bytes) × (v : Bytes) × ((kv.pmkv_put s k v).0 ≢ 0)

-- Either the exception, because of a failed `pmkv_put`, or a value.
abbrev pub Ends : Pmkv → {A : Type 0} → Result A → Type 0
Ends kv {A} r = (Refuses kv × (r ≡ fault runtime_error)) ⊎ ((a : A) × (r ≡ done a))

pub Ends-bind :
    (kv : Pmkv) {A B : Type 0} (m : Result A) (f : A → Result B)
    → Ends kv m
    → ((a : A) → Ends kv (f a))
    → Ends kv (m >>= f)
Ends-bind kv (done a) f e k = k a
Ends-bind kv (fault x) f (inl (p, e)) k = inl (p, cc e)
Ends-bind kv (fault x) f (inr (a, e)) k = cc e

module _ (kv : Pmkv) (cfg : Config) (seq : Bool) (tid : ℕ) where
  pub put-Ends :
      (s : kv.Store) (k v : Bytes)
      → (Refuses kv × (Wrapper.put kv s k v ≡ fault runtime_error))
        ⊎ ((s' : kv.Store) × (Wrapper.put kv s k v ≡ done (Status.ok, s')))
  unfolding Wrapper.put
  put-Ends s k v = elim (Bool-cases ((kv.pmkv_put s k v).0 == 0)) [
    | inl stored ↦ rw stored (inr (_, refl))
    | inr refused ↦ rw refused (inl ((s, k, v, ground arith), refl))
  ]

  -- `exit(1)` in `DoWrite` is never reached: `put` throws before it could return another status.
  pub write_round-Ends : (i : ℕ) (w : Worker kv) → Ends kv (write_round kv cfg seq tid i w)
  unfolding write_round
  write_round-Ends i w =
      let w1 = with_key kv cfg seq tid i w in
      elim (put-Ends w1.store w1.key (replicate cfg.value_size b'X')) [
        | inl (p, e) ↦ inl (p, rw e)
        | inr (s', e) ↦ rw e (inr (_, refl))
      ]

  write_loop-Ends : (n i : ℕ) (w : Worker kv) → Ends kv (write_loop kv cfg seq tid n i w)
  unfolding write_loop
  write_loop-Ends zero i w = inr (w, refl)
  write_loop-Ends (suc n) i w =
      Ends-bind kv (write_round kv cfg seq tid i w) (write_loop kv cfg seq tid n (i + 1))
        (write_round-Ends i w) (write_loop-Ends n (i + 1))

  do_write-Ends : (w : Worker kv) → Ends kv (do_write kv cfg seq tid w)
  unfolding do_write
  do_write-Ends w =
      let w1 : Worker kv = record w {
        stats = announced kv cfg seq tid w.stats;
        bytes = 0;
        found = 0;
      } in
      Ends-bind kv (write_loop kv cfg seq tid cfg.num 0 w1)
        (λ a. done (record a { stats = Stats.add_bytes a.bytes a.stats }))
        (write_loop-Ends cfg.num 0 w1) (λ a. inr (_, refl))

  -- `DoWrite` on a store that keeps the contract, with a key buffer of `key_size_` bytes, ends in
  -- one of two ways, and never by its own `exit(1)`: the wrapper's exception, which takes a
  -- `pmkv_put` that fails, or a return after which each key that it made holds the value, every
  -- other key what it held before, the number of entries has grown by the number of its keys that
  -- are new, and `num_` operations and their bytes (modulo 2^64) are counted.
  pub do_write-outcome :
      (map : IsMap kv) (w : Worker kv)
      → length w.key ≡ cfg.key_size
      → (Refuses kv × (do_write kv cfg seq tid w ≡ fault runtime_error))
        ⊎ ((w' : Worker kv) × (do_write kv cfg seq tid w ≡ done w')
            × Filled kv map cfg seq tid w w')
  do_write-outcome map w h = elim (do_write-Ends w) [
    | inl e ↦ inl e
    | inr (w', e) ↦ inr (w', e, do_write-Filled kv map cfg seq tid w w' h e)
  ]
