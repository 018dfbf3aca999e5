-- ===== src/Bench/Parallel/EndToEnd/Returns.antt =====
-- How `Run` can end on the list `fillseq,readseq,deleteseq`.
use mathlib.Core.Path.{subst}
use mss_kv_lab.Base.{
  ℕ, ◌*◌, ◌^◌, ◌≤◌, ◌<◌, ◌≡◌, refl, sym, ap, ◌∙◌, ◌⊎◌, inl, inr, Bool, true, Option, none, some,
  List, Bytes, codes, length,
}
use mss_kv_lab.Base.Result.{Result, Fault, done, fault, runtime_error, ◌>>=◌}
use mss_kv_lab.Kv.{Pmkv}
use mss_kv_lab.Kv.Contract.{IsMap}
use mss_kv_lab.Bench.Wrapper
use mss_kv_lab.Bench.Wrapper.Laws.{IsEmpty}
use mss_kv_lab.Bench.Keys.Distinct.{capacity}
use mss_kv_lab.Bench.Workload.{Config}
use mss_kv_lab.Bench.Workload.Outcome.{Refuses}
use mss_kv_lab.Bench.Run.{
  Method, write_seq, read_seq, delete_seq, chosen, names, names_of, Flags, State, pool_size,
  open_db, ensure_open, run_method, run_name, run_names, run,
}
use mss_kv_lab.Bench.Parallel.{
  Machine, Task, writes, reads, deletes, run_turns, all_started, simple_task, run_benchmark,
}
use mss_kv_lab.Bench.Parallel.Turns.{IsEnough, run_turns-Ends}
use mss_kv_lab.Bench.Parallel.Barriers.Progress.{round-Ends}
use mss_kv_lab.Bench.Parallel.EndToEnd.{bench, fill_read_delete_lem}

module _ (kv : Pmkv) (map : IsMap kv) (cfg : Config) (machine : Method → Machine)
    (schedule : Method → List ℕ) (others : Method → ℕ → kv.Store → Result kv.Store) (n : ℕ)
    (remove_file : kv.World → kv.World) (flags : Flags) where
  abbrev benchmark : Method → ℕ → kv.Store → Result kv.Store
  benchmark = bench kv map cfg machine schedule others n

  abbrev size : ℕ
  size = pool_size kv remove_file benchmark flags

  -- Why `Run` may not return: an opening of the store has thrown, or a put was refused.
  abbrev pub Reason : Fault → Type 0
  Reason e =
      ((b : Bool) × (w : kv.World) × (Wrapper.construct kv flags.db size b w ≡ fault e))
      ⊎ (Refuses kv × (e ≡ runtime_error))

  -- With a fault that has a reason, or with a value.
  abbrev Stops : {A : Type 0} → Result A → Type 0
  Stops {A} r = ((e : Fault) × Reason e × (r ≡ fault e)) ⊎ ((a : A) × (r ≡ done a))

  Stops-bind :
      {A B : Type 0} (r : Result A) (f : A → Result B)
      → Stops r
      → ((a : A) → Stops (f a))
      → Stops (r >>= f)
  Stops-bind (done a) f s k = k a
  Stops-bind (fault x) f (inl (e, why, same)) k = inl (e, why, cc same)
  Stops-bind (fault x) f (inr (a, same)) k = cc same

  construct-Stops :
      (b : Bool) (w : kv.World) (r : Result (kv.Store × kv.World))
      → Wrapper.construct kv flags.db size b w ≡ r
      → Stops r
  construct-Stops b w (done a) same = inr (a, refl)
  construct-Stops b w (fault e) same = inl (e, inl (b, w, same), refl)

  ensure_open-Stops :
      (b : Bool) (st : State kv remove_file benchmark flags)
      → Stops (ensure_open kv remove_file benchmark flags b st)
  unfolding ensure_open open_db
  ensure_open-Stops b (none, w) = construct-Stops b _ _ refl
  ensure_open-Stops b (some s, w) = inr (_, refl)

  task-Stops :
      (m : Machine) (task : Task) (k : ℕ) (ts : List ℕ) (s : kv.Store)
      → Stops (do d ← run_turns kv cfg m k task ts (all_started kv cfg m task s); done d.store)
  task-Stops m task k ts s =
      Stops-bind (run_turns kv cfg m k task ts (all_started kv cfg m task s)) (λ d. done d.store)
        (elim (run_turns-Ends kv cfg m k task (round-Ends kv cfg m task) ts
          (all_started kv cfg m task s)) [
            | inl (p, e) ↦ inl (runtime_error, inr (p, refl), e)
            | inr d ↦ inr d
          ])
        (λ d. inr (_, refl))

  run_method-Stops :
      (o : Option Method) (m : Method) (k : ℕ) (r : kv.Store × kv.World)
      → o ≡ some m
      → ((s : kv.Store) → Stops (benchmark m k s))
      → Stops (run_method kv remove_file benchmark flags o k r)
  unfolding run_method
  run_method-Stops none m k r e stops = cc e
  run_method-Stops (some m') m k r e stops =
      let same : m ≡ m' = cc e in
      Stops-bind (benchmark m' k r.0) _ (subst (λ x. Stops (benchmark x k r.0)) same (stops r.0))
        (λ s'. inr (_, refl))

  run_name-Stops :
      (name : Bytes) (m : Method) (st : State kv remove_file benchmark flags)
      → (chosen name).method ≡ some m
      → ((k : ℕ) (s : kv.Store) → Stops (benchmark m k s))
      → Stops (run_name kv remove_file benchmark flags name st)
  unfolding run_name
  run_name-Stops name m st is_m stops =
      Stops-bind _ _ (ensure_open-Stops (chosen name).fresh_db _)
        (λ r. run_method-Stops (chosen name).method m _ r is_m (stops _))

  list-Stops :
      (st : State kv remove_file benchmark flags)
      → flags.benchmarks ≡ codes "fillseq,readseq,deleteseq"
      → Stops (run kv remove_file benchmark flags st)
  unfolding run run_names names names_of chosen run_benchmark simple_task
  list-Stops st list =
      subst (λ l. Stops (run_names kv remove_file benchmark flags (names l) st)) (sym list)
        (Stops-bind _ _
          (run_name-Stops (codes "fillseq") write_seq st refl
            (λ k. task-Stops (machine write_seq) (writes true) k (schedule write_seq)))
          (λ st1.
            Stops-bind _ _
              (run_name-Stops (codes "readseq") read_seq st1 refl
                (λ k. task-Stops (machine read_seq) (reads true) k (schedule read_seq)))
              (λ st2.
                Stops-bind _ _
                  (run_name-Stops (codes "deleteseq") delete_seq st2 refl
                    (λ k. task-Stops (machine delete_seq) (deletes true) k (schedule delete_seq)))
                  (λ st3. inr (st3, refl)))))

  -- `Run` on the list `fillseq,readseq,deleteseq`, over a library that keeps the contract, with
  -- the threads of the flags, key buffers of `key_size_` bytes, numbers of keys that stay in an
  -- `int` and fit the key's bytes, and in each benchmark any order of the calls that gives each
  -- thread its rounds: whatever was open and lay on the disk before, it ends in one of two ways.
  -- Either an opening of the store has thrown, or a put was refused and the wrapper has thrown; or
  -- it returns, a store is open, and it is without an entry.
  pub fill_read_delete-outcome :
      n * cfg.num ≤ 2 ^ 31
      → n * cfg.num ≤ capacity cfg.key_size
      → ((b : Method) (t : ℕ) → t < n → length ((machine b).old_key t) ≡ cfg.key_size)
      → flags.threads ≡ n
      → flags.benchmarks ≡ codes "fillseq,readseq,deleteseq"
      → IsEnough kv cfg (machine write_seq) n (writes true) (schedule write_seq)
      → IsEnough kv cfg (machine read_seq) n (reads true) (schedule read_seq)
      → IsEnough kv cfg (machine delete_seq) n (deletes true) (schedule delete_seq)
      → (st : State kv remove_file benchmark flags)
      → ((e : Fault) × Reason e × (run kv remove_file benchmark flags st ≡ fault e))
        ⊎ ((s : kv.Store) × (w : kv.World) × (run kv remove_file benchmark flags st
              ≡ done (some s, w))
            × IsEmpty kv map s)
  fill_read_delete-outcome fits room buffers threads list fill read delete st =
      elim (list-Stops st list) [
        | inl stopped ↦ inl stopped
        | inr (st', ran) ↦
            let (s, w, same, empty) =
              fill_read_delete_lem kv map cfg machine schedule others n fits room buffers
                remove_file flags threads list fill read delete st st' ran in
            inr (s, w, ran ∙ ap done same, empty)
      ]
