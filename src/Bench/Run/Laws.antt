-- ===== src/Bench/Run/Laws.antt =====
-- What a round of `Run` does to the store.
use mss_kv_lab.Base.{
  ℕ, ◌+◌, ◌≡◌, ap, sym, Bool, ◌∙◌, true, false, Option, none, some, Bytes, codes, ◌⊎◌, inl, inr,
  arith,
}
use mss_kv_lab.Base.Result.{Result, done, >>=-eq-ok}
use mss_kv_lab.Kv.{Pmkv}
use mss_kv_lab.Kv.Contract.{IsMap}
use mss_kv_lab.Bench.Wrapper.Laws.{IsEmpty, construct-IsEmpty}
use mss_kv_lab.Bench.Run.{
  Method, write_seq, write_random, chosen, Flags, State, open_db, start_over, ensure_open,
  run_method, run_name,
}

module _ (kv : Pmkv) (map : IsMap kv) (remove_file : kv.World → kv.World)
    (run_benchmark : Method → ℕ → kv.Store → Result kv.Store) (flags : Flags) where
  opened_afresh :
      (b : Bool) (st : State kv remove_file run_benchmark flags) (r : kv.Store × kv.World)
      → b ≡ true
      → ensure_open kv remove_file run_benchmark flags b
          (start_over kv remove_file run_benchmark flags b st)
        ≡ done r
      → IsEmpty kv map r.0
  unfolding ensure_open start_over open_db
  opened_afresh true st r on h = construct-IsEmpty kv map flags.db _ _ r.1 r.0 h
  opened_afresh false st r on h = cc on

  method_run :
      (o : Option Method) (m : Method) (n : ℕ) (r : kv.Store × kv.World)
      → (st' : State kv remove_file run_benchmark flags) → o ≡ some m
      → run_method kv remove_file run_benchmark flags o n r ≡ done st'
      → (s' : kv.Store) × (run_benchmark m n r.0 ≡ done s') × (st' ≡ (some s', r.1))
  unfolding run_method
  method_run none m n r st' e h = cc e
  method_run (some k) m n r st' e h =
      let (s', ran, same) = >>=-eq-ok (run_benchmark k n r.0) _ h in
      let is_m : k ≡ m = cc e in (s', ap (λ x. run_benchmark x n r.0) (sym is_m) ∙ ran, cc same)

  -- A benchmark that asks for a fresh store.
  pub fresh-IsEmpty :
      (name : Bytes) (m : Method) (st st' : State kv remove_file run_benchmark flags)
      → (chosen name).fresh_db ≡ true
      → (chosen name).method ≡ some m
      → run_name kv remove_file run_benchmark flags name st ≡ done st'
      → (s s' : kv.Store) × (w : kv.World) × IsEmpty kv map s
        × (run_benchmark m (flags.threads + (chosen name).more_threads) s ≡ done s')
        × (st' ≡ (some s', w))
  unfolding run_name
  fresh-IsEmpty name m st st' is_fresh is_m h =
      let (r, opened, ran) =
        >>=-eq-ok
          (ensure_open kv remove_file run_benchmark flags (chosen name).fresh_db
            (start_over kv remove_file run_benchmark flags (chosen name).fresh_db st))
          _ h in
      let (s', ran', same) = method_run (chosen name).method m _ r st' is_m ran in
      (r.0, s', r.1, opened_afresh _ st r is_fresh opened, ran', same)

  with_threads :
      (name : Bytes) (m : Method) (s s' : kv.Store)
      → (chosen name).more_threads ≡ 0
      → run_benchmark m (flags.threads + (chosen name).more_threads) s ≡ done s'
      → run_benchmark m flags.threads s ≡ done s'
  with_threads name m s s' none_more ran =
      ap (λ k. run_benchmark m k s) (omega (arith, none_more)) ∙ ran

  -- `fillseq` runs `WriteSeq`, and `fillrandom` `WriteRandom`, on a store without an entry, whatever
  -- `Run` had open and whatever lay on the disk, with the number of threads of the flags; the store
  -- that it leaves stays open for the next name.
  pub filling-IsEmpty :
      (name : Bytes) (m : Method) (st st' : State kv remove_file run_benchmark flags)
      → ((name ≡ codes "fillseq") × (m ≡ write_seq))
        ⊎ ((name ≡ codes "fillrandom") × (m ≡ write_random))
      → run_name kv remove_file run_benchmark flags name st ≡ done st'
      → (s s' : kv.Store) × (w : kv.World) × IsEmpty kv map s
        × (run_benchmark m flags.threads s ≡ done s')
        × (st' ≡ (some s', w))
  unfolding chosen
  filling-IsEmpty name m st st' (inl (is_name, is_m)) h =
      let (s, s', w, none_in, ran, same) =
        fresh-IsEmpty name m st st' (ap (λ x. (chosen x).fresh_db) is_name)
          (ap (λ x. (chosen x).method) is_name ∙ ap some (sym is_m)) h in
      (
        s,
        s',
        w,
        none_in,
        with_threads name m s s' (ap (λ x. (chosen x).more_threads) is_name) ran,
        same,
      )
  filling-IsEmpty name m st st' (inr (is_name, is_m)) h =
      let (s, s', w, none_in, ran, same) =
        fresh-IsEmpty name m st st' (ap (λ x. (chosen x).fresh_db) is_name)
          (ap (λ x. (chosen x).method) is_name ∙ ap some (sym is_m)) h in
      (
        s,
        s',
        w,
        none_in,
        with_threads name m s s' (ap (λ x. (chosen x).more_threads) is_name) ran,
        same,
      )

  -- A benchmark that asks for no fresh store runs on the one that is open.
  pub kept_open :
      (name : Bytes) (m : Method) (s : kv.Store) (w : kv.World)
      (st' : State kv remove_file run_benchmark flags)
      → (chosen name).fresh_db ≡ false
      → (chosen name).method ≡ some m
      → run_name kv remove_file run_benchmark flags name (some s, w) ≡ done st'
      → (s' : kv.Store) × (run_benchmark m (flags.threads + (chosen name).more_threads) s ≡ done s')
        × (st' ≡ (some s', w))
  unfolding run_name ensure_open start_over
  kept_open name m s w st' stays is_m h =
      let reopened : ensure_open kv remove_file run_benchmark flags (chosen name).fresh_db
            (start_over kv remove_file run_benchmark flags (chosen name).fresh_db (some s, w))
          ≡ done (s, w) =
        ap
          (λ b.
            ensure_open kv remove_file run_benchmark flags b
              (start_over kv remove_file run_benchmark flags b (some s, w)))
          stays in
      let (r, opened, ran) =
        >>=-eq-ok
          (ensure_open kv remove_file run_benchmark flags (chosen name).fresh_db
            (start_over kv remove_file run_benchmark flags (chosen name).fresh_db (some s, w)))
          _ h in
      let same : (s, w) ≡ r = cc (reopened, opened) in
      let (s', ran', done') = method_run (chosen name).method m _ r st' is_m ran in
      (
        s',
        ap (run_benchmark m (flags.threads + (chosen name).more_threads)) (ap (λ x. x.0) same)
            ∙ ran',
        done' ∙ ap (λ x. (some s', x.1)) (sym same),
      )
