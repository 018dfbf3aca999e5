-- ===== src/Bench/Parallel/Read.antt =====
-- `DoRead` by n threads at once.
use mss_kv_lab.Base.{ℕ, zero, suc, ◌+◌, ◌<◌, ◌≡◌, refl, sym, ap, ◌∙◌, Bool, List, arith}
use mss_kv_lab.Base.Result.{done}
use mss_kv_lab.Kv.{Pmkv}
use mss_kv_lab.Bench.Workload.{Config, Worker, read_round, read_loop, do_read, with_key}
use mss_kv_lab.Bench.Parallel.{
  Machine, reads, cfg_of, Shared, view, advanced, run_turns, first_worker, new_worker, all_started,
  conclude,
}
use mss_kv_lab.Bench.Parallel.Keys.{set_at-both}
use mss_kv_lab.Bench.Parallel.Turns.{IsEnough, run_turns-keeps, run_turns-finished, run_turns-total}

module _ (kv : Pmkv) (cfg : Config) (m : Machine) (n : ℕ) (seq : Bool) where
  module _ (t : ℕ) where
    loop_store :
        (k i : ℕ) (w : Worker kv) → (read_loop kv (cfg_of kv cfg m t) seq t k i w).store ≡ w.store
    unfolding read_loop read_round with_key
    loop_store zero i w = refl
    loop_store (suc k) i w = loop_store k (i + 1) (read_round kv (cfg_of kv cfg m t) seq t i w)

    -- One round more at the end of the loop.
    loop_last :
        (k i : ℕ) (w : Worker kv)
        → read_loop kv (cfg_of kv cfg m t) seq t (suc k) i w
          ≡ read_round kv
              (cfg_of kv cfg m t)
              seq
              t
              (i + k)
              (read_loop kv (cfg_of kv cfg m t) seq t k i w)
    unfolding read_loop
    loop_last zero i w = ap (λ j. read_round kv (cfg_of kv cfg m t) seq t j w) (omega arith)
    loop_last (suc k) i w =
        loop_last k (i + 1) (read_round kv (cfg_of kv cfg m t) seq t i w)
        ∙ ap
            (λ j.
              read_round kv (cfg_of kv cfg m t) seq t j
                (read_loop kv (cfg_of kv cfg m t) seq t (suc k) i w))
            (omega arith)

  module _ (store0 : kv.Store) where
    -- What thread t has after k rounds when it works alone.
    abbrev by_itself : ℕ → ℕ → Worker kv
    by_itself t k =
        read_loop kv (cfg_of kv cfg m t) seq t k 0 (new_worker kv cfg m (reads seq) t store0)

    record Reading (s : Shared kv cfg m) : Type 0 where
      pub store : s.store ≡ store0
      pub own : (t : ℕ) → s.worker t ≡ by_itself t (s.index t)

    Reading-step :
        (t : ℕ) (s : Shared kv cfg m) (w : Worker kv)
        → done (read_round kv (cfg_of kv cfg m t) seq t (s.index t) (view kv cfg m t s)) ≡ done w
        → Reading s
        → Reading (advanced kv cfg m t s w)
    unfolding read_round with_key
    Reading-step t s w ran r =
        let same : view kv cfg m t s ≡ s.worker t =
          ap (λ (x : kv.Store). record (s.worker t) { store = x })
            (r.store
              ∙ sym (
                  ap (λ (v : Worker kv). v.store) (r.own t)
                  ∙ loop_store t (s.index t) 0 (new_worker kv cfg m (reads seq) t store0))) in
        let now : w ≡ by_itself t (suc (s.index t)) =
          sym (cc ran)
          ∙ (ap (read_round kv (cfg_of kv cfg m t) seq t (s.index t)) (same ∙ r.own t)
              ∙ sym (
                  loop_last t (s.index t) 0 (new_worker kv cfg m (reads seq) t store0)
                  ∙ ap (λ j. read_round kv (cfg_of kv cfg m t) seq t j (by_itself t (s.index t)))
                      (omega arith))) in
        record {
          store =
              ap (λ (v : Worker kv). v.store) now
              ∙ loop_store t (suc (s.index t)) 0 (new_worker kv cfg m (reads seq) t store0);
          own = λ u.
              set_at-both (λ (k : ℕ) (v : Worker kv). v ≡ by_itself u k) s.index s.worker t u _ w
                (λ is_u. now ∙ ap (λ x. by_itself x (suc (s.index t))) is_u) (r.own u);
        }

    pub parallel_read_lem :
        (missing : Bool) (schedule : List ℕ)
        → IsEnough kv cfg m n (reads seq) schedule
        → (s : Shared kv cfg m) × (run_turns kv cfg m n
              (reads seq)
              schedule
              (all_started kv cfg m (reads seq) store0)
            ≡ done s)
          × (s.store ≡ store0)
          × ((t : ℕ)
              → t < n
              → conclude kv cfg m (reads seq) (s.worker t)
                ≡ do_read kv (cfg_of kv cfg m t) seq t missing (first_worker kv cfg m t store0))
    unfolding do_read read_loop
    parallel_read_lem missing schedule enough =
        let (s, ran) =
          run_turns-total kv cfg m n (reads seq) (λ t i w. (_, refl)) schedule
            (all_started kv cfg m (reads seq) store0) in
        let r =
          run_turns-keeps kv cfg m n (reads seq) Reading
            (λ t s w there left ran r. Reading-step t s w ran r) schedule _ s ran
            (record { store = refl; own = λ t. refl }) in
        (
          s,
          ran,
          r.store,
          λ t h. ap (conclude kv cfg m (reads seq)) (
              r.own t
              ∙ ap (by_itself t)
                  (run_turns-finished kv cfg m n (reads seq) schedule store0 s t h enough ran)),
        )
