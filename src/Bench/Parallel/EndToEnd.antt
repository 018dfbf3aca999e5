-- ===== src/Bench/Parallel/EndToEnd.antt =====
-- The list `fillseq,readseq,deleteseq`, by as many threads as the flags say, from whatever `Run`
-- had open to the store that it leaves.
pub mod Returns
mod Tests
use mss_kv_lab.Base.{
  ℕ, ◌+◌, ◌*◌, ◌^◌, ◌≤◌, ◌<◌, ◌≡◌, ◌≢◌, refl, sym, ap, ◌∙◌, inl, inr, none, some, List, [], ◌∷◌,
  Bytes, codes, length, true, false, arith, Option-cases,
}
use mss_kv_lab.Base.Result.{Result, done, >>=-eq-ok}
use mss_kv_lab.Kv.{Pmkv}
use mss_kv_lab.Kv.Contract.{IsMap, is_some}
use mss_kv_lab.Bench.Wrapper.Laws.{IsEmpty}
use mss_kv_lab.Bench.Keys.Distinct.{capacity}
use mss_kv_lab.Bench.Workload.{Config}
use mss_kv_lab.Bench.Run.{
  Method, write_seq, read_seq, delete_seq, chosen, names, names_of, Flags, State, run_name,
  run_names, run,
}
use mss_kv_lab.Bench.Run.Laws.{fresh-IsEmpty, kept_open}
use mss_kv_lab.Bench.Parallel.{
  Machine, writes, reads, deletes, Shared, run_turns, all_started, simple_task, run_benchmark,
}
use mss_kv_lab.Bench.Parallel.Turns.{IsEnough}
use mss_kv_lab.Bench.Parallel.Keys.{key_at}
use mss_kv_lab.Bench.Parallel.Outcome.{AllWritten, run_turns-AllWritten}
use mss_kv_lab.Bench.Parallel.Read.{parallel_read_lem}
use mss_kv_lab.Bench.Parallel.Delete.{parallel_delete_lem}

module _ (kv : Pmkv) (map : IsMap kv) (cfg : Config) (machine : Method → Machine)
    (schedule : Method → List ℕ) (others : Method → ℕ → kv.Store → Result kv.Store) (n : ℕ) where
  open map use {entry, count}

  abbrev pub bench : Method → ℕ → kv.Store → Result kv.Store
  bench = run_benchmark kv cfg machine schedule others

  module _ (fits : n * cfg.num ≤ 2 ^ 31) (room : n * cfg.num ≤ capacity cfg.key_size)
      (buffers : (b : Method) (t : ℕ) → t < n → length ((machine b).old_key t) ≡ cfg.key_size) where
    -- What a `fillseq` that returns leaves on an empty store.
    filled :
        (s s1 : kv.Store)
        → IsEnough kv cfg (machine write_seq) n (writes true) (schedule write_seq)
        → IsEmpty kv map s
        → bench write_seq n s ≡ done s1
        → (sh : Shared kv cfg (machine write_seq)) × (s1 ≡ sh.store)
          × AllWritten kv map cfg (machine write_seq) n s sh
    unfolding run_benchmark simple_task
    filled s s1 enough (none_yet, no_entry) h =
        let start = all_started kv cfg (machine write_seq) (writes true) s in
        let (sh, ran, same) =
          >>=-eq-ok
            (run_turns kv cfg (machine write_seq) n (writes true) (schedule write_seq) start) _ h in
        let stored : sh.store ≡ s1 = cc same in
        (
          sh,
          sym stored,
          run_turns-AllWritten kv map cfg (machine write_seq) n s fits room (buffers write_seq)
              (λ t i ht hi. no_entry (key_at cfg.key_size cfg.num t i)) (schedule write_seq) enough
              sh ran,
        )

    -- A `readseq` that returns leaves the store as it is.
    read :
        (s s1 : kv.Store)
        → IsEnough kv cfg (machine read_seq) n (reads true) (schedule read_seq)
        → bench read_seq n s ≡ done s1
        → s1 ≡ s
    unfolding run_benchmark simple_task
    read s s1 enough h =
        let start = all_started kv cfg (machine read_seq) (reads true) s in
        let (sh, ran, same) =
          >>=-eq-ok (run_turns kv cfg (machine read_seq) n (reads true) (schedule read_seq) start) _
            h in
        let (sh', ran', kept, _) =
          parallel_read_lem kv cfg (machine read_seq) n true s false (schedule read_seq) enough in
        let again : sh ≡ sh' = cc (ran, ran') in
        let stored : sh.store ≡ s1 = cc same in
        sym stored ∙ (ap (λ (x : Shared kv cfg (machine read_seq)). x.store) again ∙ kept)

    -- A `deleteseq` after a `fillseq` of an empty store empties it again.
    emptied :
        (s s2 : kv.Store) (sh : Shared kv cfg (machine write_seq))
        → IsEnough kv cfg (machine delete_seq) n (deletes true) (schedule delete_seq)
        → IsEmpty kv map s
        → AllWritten kv map cfg (machine write_seq) n s sh
        → bench delete_seq n sh.store ≡ done s2
        → IsEmpty kv map s2
    unfolding run_benchmark simple_task
    emptied s s2 sh enough (none_yet, no_entry) all h =
        let start = all_started kv cfg (machine delete_seq) (deletes true) sh.store in
        let (sh2, ran, same) =
          >>=-eq-ok
            (run_turns kv cfg (machine delete_seq) n (deletes true) (schedule delete_seq) start) _
            h in
        let (sh', ran', gone, others', fewer, _) =
          parallel_delete_lem kv map cfg (machine delete_seq) n sh.store fits room
            (λ t i ht hi. ap is_some (all.own t i ht hi)) (buffers delete_seq) (schedule delete_seq)
            enough in
        let again : sh' ≡ sh2 = cc (ran, ran') in
        let stored : sh2.store ≡ s2 = cc same in
        let store_is : sh'.store ≡ s2 =
          ap (λ (x : Shared kv cfg (machine delete_seq)). x.store) again ∙ stored in
        let nothing : (k : Bytes) → entry sh'.store k ≡ none = λ k.
          elim (Option-cases (entry sh'.store k)) [
            | inl e ↦ e
            | inr (v, e) ↦
                let away : (t i : ℕ) → t < n → i < cfg.num → key_at cfg.key_size cfg.num t i ≢ k =
                  λ t i ht hi same_key.
                    let clash : none ≡ some v =
                      sym (gone t i ht hi) ∙ (ap (entry sh'.store) same_key ∙ e) in
                    cc clash in
                others' k away ∙ (all.others k away ∙ no_entry k)
          ] in
        (
          ap count (sym store_is) ∙ omega (arith, fewer, all.counted, none_yet),
          λ k. ap (λ x. entry x k) (sym store_is) ∙ nothing k,
        )

    module _ (remove_file : kv.World → kv.World) (flags : Flags) (threads : flags.threads ≡ n)
        (list : flags.benchmarks ≡ codes "fillseq,readseq,deleteseq")
        (turns_fill : IsEnough kv cfg (machine write_seq) n (writes true) (schedule write_seq))
        (turns_read : IsEnough kv cfg (machine read_seq) n (reads true) (schedule read_seq))
        (turns_delete : IsEnough kv cfg
          (machine delete_seq)
          n
          (deletes true)
          (schedule delete_seq)) where
      three_names :
          names flags.benchmarks ≡ codes "fillseq" ∷ codes "readseq" ∷ codes "deleteseq" ∷ []
      unfolding names names_of
      three_names = ap names list

      -- What a run that returns leaves.
      pub fill_read_delete_lem :
          (st st' : State kv remove_file bench flags)
          → run kv remove_file bench flags st ≡ done st'
          → (s : kv.Store) × (w : kv.World) × (st' ≡ (some s, w)) × IsEmpty kv map s
      unfolding run run_names chosen
      fill_read_delete_lem st st' h =
          let ran : run_names kv remove_file bench flags
                (codes "fillseq" ∷ codes "readseq" ∷ codes "deleteseq" ∷ []) st
              ≡ done st' =
            ap (λ l. run_names kv remove_file bench flags l st) (sym three_names) ∙ h in
          let (st1, first, rest1) =
            >>=-eq-ok (run_name kv remove_file bench flags (codes "fillseq") st) _ ran in
          let (st2, second, rest2) =
            >>=-eq-ok (run_name kv remove_file bench flags (codes "readseq") st1) _ rest1 in
          let (st3, third, rest3) =
            >>=-eq-ok (run_name kv remove_file bench flags (codes "deleteseq") st2) _ rest2 in
          let (s0, s1, w, fresh, fill_ran, at1) =
            fresh-IsEmpty kv map remove_file bench flags (codes "fillseq") write_seq st st1 refl
              refl first in
          let (s2, read_ran, at2) =
            kept_open kv map remove_file bench flags (codes "readseq") read_seq s1 w st2 refl refl
              (ap (run_name kv remove_file bench flags (codes "readseq")) (sym at1) ∙ second) in
          let (s3, delete_ran, at3) =
            kept_open kv map remove_file bench flags (codes "deleteseq") delete_seq s2 w st3 refl
              refl
              (ap (run_name kv remove_file bench flags (codes "deleteseq")) (sym at2) ∙ third) in
          let n_threads : flags.threads + 0 ≡ n = omega (arith, threads) in
          let (sh, stored, all) =
            filled s0 s1 turns_fill fresh
              (ap (λ k. bench write_seq k s0) (sym n_threads) ∙ fill_ran) in
          let same : s2 ≡ s1 =
            read s1 s2 turns_read (ap (λ k. bench read_seq k s1) (sym n_threads) ∙ read_ran) in
          let last : st3 ≡ st' = cc rest3 in
          (
            s3,
            w,
            sym last ∙ at3,
            emptied s0 s3 sh turns_delete fresh all (
                ap (bench delete_seq n) (sym (same ∙ stored))
                ∙ (ap (λ k. bench delete_seq k s2) (sym n_threads) ∙ delete_ran)),
          )
