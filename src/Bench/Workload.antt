-- ===== src/Bench/Workload.antt =====
-- The simple workloads of `Benchmark` in bench/bench.cc: `DoWrite`, `DoRead`, `DoDelete`.
pub mod Drawn
pub mod Write
pub mod Outcome
pub mod Read
pub mod Delete
pub mod Sequence
mod Tests
use mss_kv_lab.Base.{
  ℕ, zero, suc, ◌+◌, ◌%◌, ◌^◌, Bool, true, false, [], Bytes, length, replicate, ◌==◌, if◌then◌else◌,
}
use mss_kv_lab.Base.Result.{Result, done, fault, exited, ◌>>=◌}
use mss_kv_lab.Kv.{Pmkv}
use mss_kv_lab.Util.Random
use mss_kv_lab.Util.Random.{Random}
use mss_kv_lab.Bench.Wrapper
use mss_kv_lab.Bench.Wrapper.{Status, not_found}
use mss_kv_lab.Bench.Keys.{generate_key_from_int, seq_number, to_uint64}
use mss_kv_lab.Bench.Stats
use mss_kv_lab.Bench.Stats.{Stats}

-- The fields of `Benchmark` and the flags that the workloads read, and the texts that they format
-- with `snprintf`. `clock i` is the clock's reading when operation i is done.
pub record Config : Type 0 where
  pub flags_num : ℕ
  pub flags_histogram : Bool
  pub num : ℕ
  pub reads : ℕ
  pub value_size : ℕ
  pub key_size : ℕ
  pub clock : ℕ → ℕ
  pub ops_text : ℕ → Bytes
  pub found_text : ℕ → ℕ → Bytes

-- What a workload changes: the store, the fields of its `ThreadState`, the key's buffer, and the
-- locals `bytes` (int64_t) and `found`.
pub record Worker (kv : Pmkv) : Type 0 where
  pub store : kv.Store
  pub rand : Random
  pub stats : Stats
  pub key : Bytes
  pub bytes : ℕ
  pub found : ℕ

-- `seq ? (i + thread->tid * num_) : (thread->rand.Next() % FLAGS_num)`, as the `uint64_t` that is
-- passed on. `flags_num` is positive.
unfoldable pub pick_number : Config → Bool → ℕ → ℕ → Random → ℕ × Random
pick_number cfg true tid i rand = (seq_number cfg.num tid i, rand)
pick_number cfg false tid i rand =
    let (x, rand') = Random.next rand in (to_uint64 (x % cfg.flags_num), rand')

module _ (kv : Pmkv) (cfg : Config) (seq : Bool) (tid : ℕ) where
  abbrev pub add_int64 : ℕ → ℕ → ℕ
  add_int64 a b = (a + b) % 2 ^ 64

  -- `GenerateKeyFromInt(k, FLAGS_num, &key)`
  unfoldable pub with_key : ℕ → Worker kv → Worker kv
  with_key i w =
      let (k, rand) = pick_number cfg seq tid i w.rand in
      record w { rand = rand; key = generate_key_from_int cfg.key_size k w.key }

  abbrev pub op_finished : ℕ → Stats → Stats
  op_finished i s = Stats.finished_single_op cfg.flags_histogram (cfg.clock i) s

  -- `if (s != OK) { … exit(1); }`
  abbrev pub write_checked : Status → Worker kv → Result (Worker kv)
  write_checked Status.ok w = done w
  write_checked not_found w = fault (exited 1)

  -- One round of the loop in `DoWrite`.
  unfoldable pub write_round : ℕ → Worker kv → Result (Worker kv)
  write_round i w0 =
      let w = with_key i w0 in
      let value : Bytes = replicate cfg.value_size b'X' in
      do
        (s, store) ← Wrapper.put kv w.store w.key value
        write_checked s (record w {
          store = store;
          bytes = add_int64 w.bytes (cfg.value_size + length w.key);
          stats = op_finished i w.stats;
        })

  unfoldable pub write_loop : ℕ → ℕ → Worker kv → Result (Worker kv)
  write_loop zero i w = done w
  write_loop (suc left) i w = do w' ← write_round i w; write_loop left (i + 1) w'

  -- One round of the loop in `DoRead`, with a fresh string for the value.
  unfoldable pub read_round : ℕ → Worker kv → Worker kv
  read_round i w0 =
      let w = with_key i w0 in
      let (s, value) = Wrapper.get kv w.store w.key [] in
      record w {
        found = elim s [ Status.ok ↦ w.found + 1 | not_found ↦ w.found ];
        stats = op_finished i w.stats;
        bytes = add_int64 w.bytes (length value + length w.key);
      }

  unfoldable pub read_loop : ℕ → ℕ → Worker kv → Worker kv
  read_loop zero i w = w
  read_loop (suc left) i w = read_loop left (i + 1) (read_round i w)

  -- One round of the loop in `DoDelete`; the status is dropped.
  unfoldable pub delete_round : ℕ → Worker kv → Worker kv
  delete_round i w0 =
      let w = with_key i w0 in
      record w { store = (Wrapper.remove kv w.store w.key).1; stats = op_finished i w.stats }

  unfoldable pub delete_loop : ℕ → ℕ → Worker kv → Worker kv
  delete_loop zero i w = w
  delete_loop (suc left) i w = delete_loop left (i + 1) (delete_round i w)

  -- `AllocateKey` and the zeroed locals; a new array holds anything, here what `w.key` holds.
  abbrev pub begin : Worker kv → Worker kv
  begin w = record w { bytes = 0; found = 0 }

  -- `if (num_ != FLAGS_num) { … }`
  unfoldable pub announced : Stats → Stats
  announced s = if cfg.num == cfg.flags_num then s else Stats.add_message (cfg.ops_text cfg.num) s

  unfoldable pub do_write : Worker kv → Result (Worker kv)
  do_write w0 =
      let w = begin w0 in
      do
        w' ← write_loop cfg.num 0 (record w { stats = announced w.stats })
        done (record w' { stats = Stats.add_bytes w'.bytes w'.stats })

  -- `missing` is never read.
  unfoldable pub do_read : Bool → Worker kv → Worker kv
  do_read missing w0 =
      let w = read_loop cfg.reads 0 (begin w0) in
      record w {
        stats =
            Stats.add_message (cfg.found_text w.found cfg.reads) (Stats.add_bytes w.bytes w.stats);
      }

  unfoldable pub do_delete : Worker kv → Worker kv
  do_delete w0 = delete_loop cfg.num 0 (begin w0)

-- The methods that `Run` chooses from.
module _ (kv : Pmkv) (cfg : Config) (tid : ℕ) where
  pub write_seq : Worker kv → Result (Worker kv)
  write_seq w = do_write kv cfg true tid w

  pub write_random : Worker kv → Result (Worker kv)
  write_random w = do_write kv cfg false tid w

  pub read_seq : Worker kv → Worker kv
  read_seq w = do_read kv cfg true tid false w

  pub read_random : Worker kv → Worker kv
  read_random w = do_read kv cfg false tid false w

  pub read_missing : Worker kv → Worker kv
  read_missing w = do_read kv cfg false tid true w

  pub delete_seq : Worker kv → Worker kv
  delete_seq w = do_delete kv cfg true tid w

  pub delete_random : Worker kv → Worker kv
  delete_random w = do_delete kv cfg false tid w
