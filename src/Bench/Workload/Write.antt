-- ===== src/Bench/Workload/Write.antt =====
-- `DoWrite`: what it stores, what it counts, and how it can fail.
use mathlib.Core.Path.{subst, fun_ext}
use mss_kv_lab.Base.{
  ℕ, zero, suc, ◌+◌, ◌*◌, ◌%◌, ◌^◌, ◌≡◌, refl, ap, ◌∙◌, Bool, ◌||◌, List, [], ◌∷◌, some, Bytes,
  bytes_eq, length, replicate, arith, if◌then◌else◌,
}
use mss_kv_lab.Base.Result.{done, >>=-eq-ok}
use mss_kv_lab.Kv.{Pmkv}
use mss_kv_lab.Kv.Contract.{IsMap, is_some}
use mss_kv_lab.Bench.Wrapper
use mss_kv_lab.Bench.Wrapper.{Status, not_found}
use mss_kv_lab.Bench.Wrapper.Laws.{put_lem}
use mss_kv_lab.Bench.Stats
use mss_kv_lab.Bench.Stats.{Stats}
use mss_kv_lab.Bench.Stats.Laws.{finished_ops, done-finished_ops, bytes-finished_ops}
use mss_kv_lab.Bench.Keys.Distinct.{key_of, length-key_of}
use mss_kv_lab.Bench.Workload.{
  Config, Worker, pick_number, with_key, write_checked, write_round, write_loop, announced,
  do_write,
}
use mss_kv_lab.Bench.Workload.Drawn.{mem_key, new_keys, drawn, length-drawn, key-with_key}

module _ (kv : Pmkv) (map : IsMap kv) (cfg : Config) (seq : Bool) (tid : ℕ) where
  open map use {entry, count}

  abbrev pub value : Bytes
  value = replicate cfg.value_size b'X'

  abbrev pub present : kv.Store → Bytes → Bool
  present s k = is_some (entry s k)

  -- The effect of writing `keys` one after the other, from operation `i` on.
  pub record Wrote (keys : List Bytes) (i : ℕ) (w w' : Worker kv) : Type 0 where
    pub entries :
        (j : Bytes) → entry w'.store j ≡ (if mem_key j keys then some value else entry w.store j)
    pub counted : count w'.store ≡ count w.store + new_keys (present w.store) keys
    pub stats : w'.stats ≡ finished_ops cfg.flags_histogram cfg.clock (length keys) i w.stats
    pub bytes :
        w'.bytes % 2 ^ 64 ≡ (w.bytes + length keys * (cfg.value_size + cfg.key_size)) % 2 ^ 64
    pub key_length : length w'.key ≡ cfg.key_size

  -- One round, with the key `k`.
  pub record WroteOne (k : Bytes) (i : ℕ) (w w' : Worker kv) : Type 0 where
    pub entries :
        (j : Bytes) → entry w'.store j ≡ (if bytes_eq k j then some value else entry w.store j)
    pub counted : count w'.store ≡ count w.store + (if present w.store k then 0 else 1)
    pub stats : w'.stats ≡ finished_ops cfg.flags_histogram cfg.clock 1 i w.stats
    pub bytes : w'.bytes ≡ (w.bytes + (cfg.value_size + cfg.key_size)) % 2 ^ 64
    pub key_length : length w'.key ≡ cfg.key_size
    pub rand : w'.rand ≡ (pick_number cfg seq tid i w.rand).1

  checked_done :
      (s : Status) (w w' : Worker kv)
      → s ≡ Status.ok
      → write_checked kv cfg seq tid s w ≡ done w'
      → w ≡ w'
  checked_done Status.ok w w' h e = cc
  checked_done not_found w w' h e = cc

  pub write_round-WroteOne :
      (i : ℕ) (w w' : Worker kv)
      → length w.key ≡ cfg.key_size
      → write_round kv cfg seq tid i w ≡ done w'
      → WroteOne (key_of cfg.key_size (pick_number cfg seq tid i w.rand).0) i w w'
  unfolding write_round with_key finished_ops
  write_round-WroteOne i w w' h e =
      let w1 = with_key kv cfg seq tid i w in
      let k = key_of cfg.key_size (pick_number cfg seq tid i w.rand).0 in
      let (r, put_ok, rest) = >>=-eq-ok (Wrapper.put kv w1.store w1.key value) _ e in
      let stored = put_lem kv map w1.store w1.key value r put_ok in
      let same = checked_done r.0 _ w' stored.status rest in
      let key_is : w1.key ≡ k = key-with_key cfg seq tid kv i w h in
      let size : length w1.key ≡ cfg.key_size =
        ap length key_is ∙ length-key_of cfg.key_size (pick_number cfg seq tid i w.rand).0 in
      subst (WroteOne k i w) same (record {
        entries = λ j. ground (arith, stored.entries j, key_is);
        counted = ground (arith, stored.counted, key_is);
        stats = refl;
        bytes = ap (λ n. (w.bytes + (cfg.value_size + n)) % 2 ^ 64) size;
        key_length = size;
        rand = refl;
      })

  Wrote-cons :
      (k : Bytes) (ks : List Bytes) (i : ℕ) (w w1 w' : Worker kv)
      → WroteOne k i w w1
      → Wrote ks (i + 1) w1 w'
      → Wrote (k ∷ ks) i w w'
  unfolding finished_ops
  Wrote-cons k ks i w w1 w' one rest = record {
    entries = λ j. ground (arith, one.entries j, rest.entries j);
    counted = omega (
      arith,
      rest.counted,
      one.counted,
      ap (λ (p : Bytes → Bool). new_keys p ks) (fun_ext now_present),
    );
    stats =
        rest.stats ∙ ap (finished_ops cfg.flags_histogram cfg.clock (length ks) (i + 1)) one.stats;
    bytes = omega (arith, rest.bytes, one.bytes);
    key_length = rest.key_length;
  }
    where
      now_present : (j : Bytes) → present w1.store j ≡ (bytes_eq k j || present w.store j)
      now_present j = ground (arith, one.entries j)

  write_loop-Wrote :
      (n i : ℕ) (w w' : Worker kv)
      → length w.key ≡ cfg.key_size
      → write_loop kv cfg seq tid n i w ≡ done w'
      → Wrote (drawn cfg seq tid n i w.rand) i w w'
  unfolding write_loop drawn finished_ops
  write_loop-Wrote zero i w w' h e =
      let same : w ≡ w' = cc e in
      subst (Wrote [] i w) same (record {
        entries = λ j. refl;
        counted = omega arith;
        stats = refl;
        bytes = omega arith;
        key_length = h;
      })
  write_loop-Wrote (suc n) i w w' h e =
      let (w1, round, rest) = >>=-eq-ok (write_round kv cfg seq tid i w) _ e in
      let one = write_round-WroteOne i w w1 h round in
      Wrote-cons (key_of cfg.key_size (pick_number cfg seq tid i w.rand).0) _ i w w1 w' one (
        subst (λ r. Wrote (drawn cfg seq tid n (i + 1) r) (i + 1) w1 w') one.rand
          (write_loop-Wrote n (i + 1) w1 w' one.key_length rest))

  -- What a complete `DoWrite` leaves behind, for the keys it makes.
  pub record Filled (w w' : Worker kv) : Type 0 where
    pub entries :
        (j : Bytes)
        → entry w'.store j
          ≡ (if mem_key j (drawn cfg seq tid cfg.num 0 w.rand) then some value else entry w.store j)
    pub counted :
        count w'.store
        ≡ count w.store + new_keys (present w.store) (drawn cfg seq tid cfg.num 0 w.rand)
    pub ops : w'.stats.ops_done ≡ w.stats.ops_done + cfg.num
    pub bytes :
        w'.stats.bytes ≡ (w.stats.bytes + cfg.num * (cfg.value_size + cfg.key_size)) % 2 ^ 64

  pub announced_counts :
      (s : Stats)
      → ((announced kv cfg seq tid s).ops_done ≡ s.ops_done)
        × ((announced kv cfg seq tid s).bytes ≡ s.bytes)
  unfolding announced Stats.add_message
  announced_counts s = ground arith

  pub add_bytes_counts :
      (n : ℕ) (s : Stats)
      → ((Stats.add_bytes n s).ops_done ≡ s.ops_done)
        × ((Stats.add_bytes n s).bytes ≡ (s.bytes + n) % 2 ^ 64)
  unfolding Stats.add_bytes
  add_bytes_counts n s = (refl, refl)

  totals :
      (keys : List Bytes) (w1 w2 : Worker kv)
      → Wrote keys 0 w1 w2
      → length keys ≡ cfg.num
      → w1.bytes ≡ 0
      → ((Stats.add_bytes w2.bytes w2.stats).ops_done ≡ w1.stats.ops_done + cfg.num)
        × ((Stats.add_bytes w2.bytes w2.stats).bytes
            ≡ (w1.stats.bytes + cfg.num * (cfg.value_size + cfg.key_size)) % 2 ^ 64)
  totals keys w1 w2 wrote size start =
      let ops = done-finished_ops cfg.flags_histogram cfg.clock (length keys) 0 w1.stats in
      let kept = bytes-finished_ops cfg.flags_histogram cfg.clock (length keys) 0 w1.stats in
      let per_op : length keys * (cfg.value_size + cfg.key_size)
          ≡ cfg.num * (cfg.value_size + cfg.key_size) =
        ap (λ (n : ℕ). n * (cfg.value_size + cfg.key_size)) size in
      let ops2 = ap (λ (s : Stats). s.ops_done) wrote.stats in
      let kept2 = ap (λ (s : Stats). s.bytes) wrote.stats in
      (
        (add_bytes_counts w2.bytes w2.stats).0 ∙ omega (arith, ops, ops2, size),
        (add_bytes_counts w2.bytes w2.stats).1
            ∙ omega (arith, kept, kept2, wrote.bytes, per_op, start),
      )

  pub do_write-Filled :
      (w w' : Worker kv)
      → length w.key ≡ cfg.key_size
      → do_write kv cfg seq tid w ≡ done w'
      → Filled w w'
  unfolding do_write
  do_write-Filled w w' h e =
      let w1 : Worker kv = record w {
        stats = announced kv cfg seq tid w.stats;
        bytes = 0;
        found = 0;
      } in
      let (w2, loop, rest) = >>=-eq-ok (write_loop kv cfg seq tid cfg.num 0 w1) _ e in
      let last : Worker kv = record w2 { stats = Stats.add_bytes w2.bytes w2.stats } in
      let same : last ≡ w' = cc rest in
      let wrote = write_loop-Wrote cfg.num 0 w1 w2 h loop in
      let size = length-drawn cfg seq tid cfg.num 0 w.rand in
      let sums = totals (drawn cfg seq tid cfg.num 0 w.rand) w1 w2 wrote size refl in
      let noted = announced_counts w.stats in
      subst (Filled w) same (record {
        entries = wrote.entries;
        counted = wrote.counted;
        ops = sums.0 ∙ ap (λ n. n + cfg.num) noted.0;
        bytes = sums.1 ∙ ap (λ n. (n + cfg.num * (cfg.value_size + cfg.key_size)) % 2 ^ 64) noted.1;
      })
