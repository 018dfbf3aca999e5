-- ===== src/Bench/Parallel/Write.antt =====
-- `DoWrite` by n threads at once, sequential or random: which entries are there in the end.
use native.Mathlib.Decide.{dec_lt}
use mss_kv_lab.Base.{
  ℕ, zero, suc, ◌+◌, ◌<◌, ◌≡◌, ◌≢◌, refl, sym, ap, ◌∙◌, ◌⊎◌, inl, inr, Bool, true, false, ◌||◌,
  List, some, Bytes, bytes_eq, length, if◌then◌else◌, arith,
}
use mss_kv_lab.Base.Result.{done, fault, runtime_error}
use mss_kv_lab.Kv.{Pmkv}
use mss_kv_lab.Kv.Contract.{IsMap}
use mss_kv_lab.Util.Random.{Random, random}
use mss_kv_lab.Bench.Keys.Distinct.{key_of}
use mss_kv_lab.Bench.Workload.{Config, Worker, pick_number}
use mss_kv_lab.Bench.Workload.Drawn.{drawn, rand_after, mem_key}
use mss_kv_lab.Bench.Workload.Write.{value, write_round-WroteOne}
use mss_kv_lab.Bench.Workload.Outcome.{Refuses, write_round-Ends}
use mss_kv_lab.Bench.Parallel.{
  Machine, writes, cfg_of, set_at, Shared, view, advanced, round, run_turns, all_started,
}
use mss_kv_lab.Bench.Parallel.Turns.{IsEnough, run_turns-keeps, run_turns-finished, run_turns-Ends}
use mss_kv_lab.Bench.Parallel.Keys.{set_at-both}

-- Whether one of the first n threads has a property.
unfoldable pub any : ℕ → (ℕ → Bool) → Bool
any zero p = false
any (suc n) p = p n || any n p

any_ext : (n : ℕ) (p q : ℕ → Bool) → ((t : ℕ) → t < n → p t ≡ q t) → any n p ≡ any n q
unfolding any
any_ext zero p q same = refl
any_ext (suc n) p q same =
    ground (arith, same n (omega arith), any_ext n p q (λ t h. same t (omega arith)))

any-none : (n : ℕ) → any n (λ t. false) ≡ false
unfolding any
any-none zero = refl
any-none (suc n) = any-none n

-- One thread's property becomes weaker by b.
any-or :
    (n : ℕ) (p q : ℕ → Bool) (t : ℕ) (b : Bool)
    → t < n
    → q t ≡ (b || p t)
    → ((u : ℕ) → t ≢ u → q u ≡ p u)
    → any n q ≡ (b || any n p)
unfolding any
any-or zero p q t b h at off = absurd (omega arith)
any-or (suc n) p q t b h at off = elim (dec_lt t n) [
  | yes below ↦ ground (arith, any-or n p q t b below at off, off n (omega arith))
  | no last ↦
      let is_n : t ≡ n = omega arith in
      ground (arith, at, is_n, ap p is_n, ap q is_n, any_ext n q p (λ u hu. off u (omega arith)))
]

set_at-here : (f : ℕ → ℕ) (t a : ℕ) → set_at f t a t ≡ a
set_at-here f t a = ground arith

set_at-away : (f : ℕ → ℕ) (t u a : ℕ) → t ≢ u → set_at f t a u ≡ f u
set_at-away f t u a apart = ground arith

module _ (cfg : Config) (seq : Bool) (t : ℕ) where
  rand_after-last :
      (k i : ℕ) (r : Random)
      → rand_after cfg seq t (suc k) i r
        ≡ (pick_number cfg seq t (i + k) (rand_after cfg seq t k i r)).1
  unfolding rand_after
  rand_after-last zero i r = ap (λ j. (pick_number cfg seq t j r).1) (omega arith)
  rand_after-last (suc k) i r =
      rand_after-last k (i + 1) (pick_number cfg seq t i r).1
      ∙ ap (λ j. (pick_number cfg seq t j (rand_after cfg seq t (suc k) i r)).1) (omega arith)

  drawn-last :
      (j : Bytes) (k i : ℕ) (r : Random)
      → mem_key j (drawn cfg seq t (suc k) i r) ≡ (
          bytes_eq
            (key_of cfg.key_size (pick_number cfg seq t (i + k) (rand_after cfg seq t k i r)).0)
            j
          || mem_key j (drawn cfg seq t k i r))
  unfolding drawn rand_after
  drawn-last j zero i r =
      ap (λ x. bytes_eq (key_of cfg.key_size (pick_number cfg seq t x r).0) j || false)
        (omega arith)
  drawn-last j (suc k) i r =
      let here : i + 1 + k ≡ i + suc k = omega arith in
      let rest = drawn-last j k (i + 1) (pick_number cfg seq t i r).1 in
      let moved =
        ap
          (λ x.
            bytes_eq
              (key_of cfg.key_size (pick_number cfg seq t x (rand_after cfg seq t (suc k) i r)).0)
              j)
          here in
      ground (arith, rest, moved)

pub any-true : (n : ℕ) (p : ℕ → Bool) (t : ℕ) → t < n → p t ≡ true → any n p ≡ true
unfolding any
any-true zero p t h e = absurd (omega arith)
any-true (suc n) p t h e = elim (dec_lt t n) [
  | yes below ↦ ground (arith, any-true n p t below e)
  | no last ↦ let is_n : t ≡ n = omega arith in ground (arith, e, ap p is_n)
]

module _ (kv : Pmkv) (map : IsMap kv) (cfg : Config) (m : Machine) (n : ℕ) (seq : Bool) where
  open map use {entry}

  -- The keys that thread t makes in its first k rounds.
  abbrev pub keys_of : ℕ → ℕ → List Bytes
  keys_of t k = drawn (cfg_of kv cfg m t) seq t k 0 (random (1000 + t))

  abbrev pub written : Bytes
  written = value kv map cfg seq 0

  -- Whether some thread has made the key j.
  abbrev pub made : (ℕ → ℕ) → Bytes → Bool
  made index j = any n (λ t. mem_key j (keys_of t (index t)))

  record Drawing (k : ℕ) (t : ℕ) (w : Worker kv) : Type 0 where
    pub key_length : length w.key ≡ cfg.key_size
    pub rand : w.rand ≡ rand_after (cfg_of kv cfg m t) seq t k 0 (random (1000 + t))

  record Writing (store0 : kv.Store) (s : Shared kv cfg m) : Type 0 where
    pub entries :
        (j : Bytes) → entry s.store j ≡ (if made s.index j then some written else entry store0 j)
    pub drawing : (t : ℕ) → t < n → Drawing (s.index t) t (s.worker t)

  module _ (store0 : kv.Store) where
    Writing-step :
        (t : ℕ) (s : Shared kv cfg m) (w : Worker kv)
        → t < n
        → round kv cfg m (writes seq) t (s.index t) (view kv cfg m t s) ≡ done w
        → Writing store0 s
        → Writing store0 (advanced kv cfg m t s w)
    Writing-step t s w ht ran f =
        let c = cfg_of kv cfg m t in
        let i = s.index t in
        let d = f.drawing t ht in
        let one = write_round-WroteOne kv map c seq t i (view kv cfg m t s) w d.key_length ran in
        let r = rand_after c seq t i 0 (random (1000 + t)) in
        let k = key_of cfg.key_size (pick_number c seq t i r).0 in
        let same_key : key_of cfg.key_size (pick_number c seq t i (s.worker t).rand).0 ≡ k =
          ap (λ x. key_of cfg.key_size (pick_number c seq t i x).0) d.rand in
        let from_zero : 0 + i ≡ i = omega arith in
        let drawn_on : w.rand ≡ rand_after c seq t (suc i) 0 (random (1000 + t)) =
          one.rand
          ∙ (ap (λ x. (pick_number c seq t i x).1) d.rand
              ∙ sym (
                  rand_after-last c seq t i 0 (random (1000 + t))
                  ∙ ap (λ x. (pick_number c seq t x r).1) from_zero)) in
        let more : (j : Bytes)
            → made (set_at s.index t (suc i)) j ≡ (bytes_eq k j || made s.index j) =
          λ j.
            any-or n (λ u. mem_key j (keys_of u (s.index u)))
              (λ u. mem_key j (keys_of u (set_at s.index t (suc i) u))) t (bytes_eq k j) ht
              (ap (λ x. mem_key j (keys_of t x)) (set_at-here s.index t (suc i))
                ∙ (drawn-last c seq t j i 0 (random (1000 + t))
                    ∙ ap
                        (λ x.
                          bytes_eq (key_of cfg.key_size (pick_number c seq t x r).0) j
                          || mem_key j (keys_of t i))
                        from_zero))
              (λ u apart.
                ap (λ x. mem_key j (keys_of u x)) (set_at-away s.index t u (suc i) apart)) in
        record {
          entries = λ j.
              let stored : entry w.store j
                  ≡ (if bytes_eq k j then some written else entry s.store j) =
                one.entries j
                ∙ ap (λ x. if bytes_eq x j then some written else entry s.store j) same_key in
              ground (arith, stored, f.entries j, more j);
          drawing = λ u hu.
              set_at-both (λ x v. Drawing x u v) s.index s.worker t u (suc i) w
                (λ is_u. record {
                  key_length = one.key_length;
                  rand =
                      drawn_on
                      ∙ ap (λ x. rand_after (cfg_of kv cfg m x) seq x (suc i) 0 (random (1000 + x)))
                          is_u;
                })
                (f.drawing u hu);
        }

    module _ (buffers : (t : ℕ) → t < n → length (m.old_key t) ≡ cfg.key_size) (schedule : List ℕ)
        (enough : IsEnough kv cfg m n (writes seq) schedule) where
      pub run_turns-made :
          (s : Shared kv cfg m)
          → run_turns kv cfg m n (writes seq) schedule (all_started kv cfg m (writes seq) store0)
            ≡ done s
          → (j : Bytes)
          → entry s.store j ≡ (if made (λ t. cfg.num) j then some written else entry store0 j)
      unfolding drawn rand_after
      run_turns-made s ran j =
          let start = all_started kv cfg m (writes seq) store0 in
          let f =
            run_turns-keeps kv cfg m n (writes seq) (Writing store0)
              (λ t x w ht left. Writing-step t x w ht) schedule start s ran
              (record {
                entries =
                    λ k. ap (λ b. if b then some written else entry store0 k) (sym (any-none n));
                drawing = λ t h. record { key_length = buffers t h; rand = refl };
              }) in
          let all : made s.index j ≡ made (λ t. cfg.num) j = any_ext n _ _ (λ t h.
            ap (λ k. mem_key j (keys_of t k))
              (run_turns-finished kv cfg m n (writes seq) schedule store0 s t h enough ran)) in
          f.entries j ∙ ap (λ b. if b then some written else entry store0 j) all

      -- n threads of `WriteSeq` or `WriteRandom` on one store that keeps the contract, with key
      -- buffers of `key_size_` bytes: whatever the order of their calls, as long as each thread
      -- gets its rounds, the run ends by a refused put, with the wrapper's exception, or it
      -- returns, and then each key that some thread draws from its own generator in `num_` rounds
      -- holds the value, and each other key what it held before.
      pub parallel_write_lem :
          let r =
            run_turns kv cfg m n (writes seq) schedule (all_started kv cfg m (writes seq) store0) in
          (Refuses kv × (r ≡ fault runtime_error))
          ⊎ ((s : Shared kv cfg m) × (r ≡ done s)
              × ((j : Bytes)
                  → entry s.store j
                    ≡ (if made (λ t. cfg.num) j then some written else entry store0 j)))
      parallel_write_lem =
          elim (run_turns-Ends kv cfg m n (writes seq)
            (λ t. write_round-Ends kv (cfg_of kv cfg m t) seq t) schedule
            (all_started kv cfg m (writes seq) store0)) [
              | inl e ↦ inl e
              | inr (s, ran) ↦ inr (s, ran, run_turns-made s ran)
            ]
