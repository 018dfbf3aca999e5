-- ===== src/Bench/Mixed.antt =====
-- `Duration` and `ReadRandomWriteRandom` of bench/bench.cc.
mod Split
mod Loop
pub mod Draws
pub mod Percent
pub mod Stall
mod Tests
use mss_kv_lab.Base.{
  ℕ, zero, suc, ◌+◌, ◌-◌, ◌/◌, ◌%◌, min, Bool, true, false, not, ◌&&◌, [], Bytes, length, ltb, leb,
  ◌==◌, Option, none, some, if◌then◌else◌,
}
use mss_kv_lab.Base.Int.{ℤ, pos, negsuc, ltb_ℤ, leb_ℤ, ◌-ℤ◌}
use mss_kv_lab.Base.Result.{Result, done, fault, exited, ◌>>=◌}
use mss_kv_lab.Kv.{Pmkv}
use mss_kv_lab.Util.Random
use mss_kv_lab.Bench.Keys.{generate_key_from_int}
use mss_kv_lab.Bench.Generator.{Generator, random_generator, generated}
use mss_kv_lab.Bench.Wrapper
use mss_kv_lab.Bench.Wrapper.{Status, not_found}
use mss_kv_lab.Bench.Stats
use mss_kv_lab.Bench.Workload.{Config, Worker, add_int64, op_finished, begin}

-- `Duration`, without `start_at_`: the clock's readings count from there.
pub record Duration : Type 0 where
  pub max_seconds : ℕ
  pub max_ops : ℕ
  pub ops_per_stage : ℕ
  pub ops : ℕ

-- The constructor; `ops_per_stage` is 0 by default.
unfoldable pub duration : ℕ → ℕ → ℕ → Duration
duration max_seconds max_ops ops_per_stage = record {
  max_seconds = max_seconds;
  max_ops = max_ops;
  ops_per_stage = if ltb 0 ops_per_stage then ops_per_stage else max_ops;
  ops = 0;
}

-- `GetStage`, for positive `max_ops` and `ops_per_stage`
unfoldable pub get_stage : Duration → ℕ
get_stage d = min d.ops (d.max_ops - 1) / d.ops_per_stage

-- `if (increment <= 0) increment = 1;`
abbrev pub positive : ℤ → ℕ
positive (pos zero) = 1
positive (pos (suc n)) = suc n
positive (negsuc n) = 1

-- `Done`, when `millis` milliseconds have passed; `FLAGS_ops_between_duration_checks` is 1000.
unfoldable pub is_done : Duration → ℤ → ℕ → Bool × Duration
is_done d increment millis =
    let inc = positive increment in
    let ops = d.ops + inc in
    (
      if d.max_seconds == 0
          then ltb d.max_ops ops
          else not (ops / 1000 == (ops - inc) / 1000) && leb d.max_seconds millis,
      record d { ops = ops },
    )

-- `get_weight` and `put_weight`
pub record Weights : Type 0 where
  pub get_weight : ℤ
  pub put_weight : ℤ

-- What a round does.
pub data Choice : Type 0 where
  reads writes idles : Choice

-- `if (get_weight == 0 && put_weight == 0) { … }`
abbrev pub is_zero : ℤ → Bool
is_zero (pos zero) = true
is_zero (pos (suc n)) = false
is_zero (negsuc n) = false

abbrev pub refill : ℤ → Weights → Weights
refill percent v =
    if is_zero v.get_weight && is_zero v.put_weight
    then record { get_weight = percent; put_weight = pos 100 -ℤ percent }
    else v

-- The tests of the two branches, and the decrements.
abbrev pub choose : Weights → Choice × Weights
choose v =
    if ltb_ℤ (pos 0) v.get_weight
    then (reads, record v { get_weight = v.get_weight -ℤ pos 1 })
    else if ltb_ℤ (pos 0) v.put_weight
    then (writes, record v { put_weight = v.put_weight -ℤ pos 1 })
    else (idles, v)

-- What the loop changes, beside the thread.
pub record Mixed (kv : Pmkv) : Type 0 where
  pub worker : Worker kv
  pub gen : Generator
  pub value : Bytes
  pub weights : Weights
  pub reads_done : ℕ
  pub writes_done : ℕ
  pub limit : Duration

module _ (kv : Pmkv) (cfg : Config) where
  -- `GenerateKeyFromInt(thread->rand.Next() % FLAGS_num, FLAGS_num, &key)`
  unfoldable pub with_random_key : Worker kv → Worker kv
  with_random_key w =
      let (x, rand) = Random.next w.rand in
      record w { rand = rand; key = generate_key_from_int cfg.key_size (x % cfg.flags_num) w.key }

-- `percent` is `FLAGS_readwritepercent`, and `text` formats the four numbers of the message.
module _ (kv : Pmkv) (cfg : Config) (percent : ℤ) (text : ℕ → ℕ → ℕ → ℕ → Bytes)
    (readwrites : ℕ) where
  -- The first branch. The clock of an operation is read by the number of operations before it.
  pub read_one : Weights → Mixed kv → Mixed kv
  read_one v s =
      let w = s.worker in
      let (status, value) = Wrapper.get kv w.store w.key [] in
      record s {
        value = value;
        weights = v;
        reads_done = s.reads_done + 1;
        worker = record w {
          found = elim status [ Status.ok ↦ w.found + 1 | not_found ↦ w.found ];
          bytes = add_int64 kv cfg false 0 w.bytes (length value + length w.key);
          stats = op_finished kv cfg false 0 (s.reads_done + s.writes_done) w.stats;
        };
      }

  -- `if (s != OK) { … exit(1); }`
  abbrev pub put_checked : Status → Mixed kv → Result (Mixed kv)
  put_checked Status.ok s = done s
  put_checked not_found s = fault (exited 1)

  -- The second branch.
  pub write_one : Weights → Mixed kv → Result (Mixed kv)
  write_one v s =
      let w = s.worker in
      do
        (value, gen) ← generated s.gen cfg.value_size
        (status, store) ← Wrapper.put kv w.store w.key value
        put_checked status (record s {
          gen = gen;
          weights = v;
          writes_done = s.writes_done + 1;
          worker = record w {
            store = store;
            bytes = add_int64 kv cfg false 0 w.bytes (length w.key + cfg.value_size);
            stats = op_finished kv cfg false 0 (s.reads_done + s.writes_done) w.stats;
          };
        })

  pub act : Choice → Weights → Mixed kv → Result (Mixed kv)
  act reads v s = done (read_one v s)
  act writes v s = write_one v s
  act idles v s = done (record s { weights = v })

  -- One round of the loop, after its test.
  pub mixed_round : Mixed kv → Result (Mixed kv)
  mixed_round s =
      let (choice, v) = choose (refill percent s.weights) in
      act choice v (record s { worker = with_random_key kv cfg s.worker })

  -- The loop, on fuel: `none` when it runs out. `FLAGS_duration` is 0, so no clock is read.
  pub mixed_loop : ℕ → Mixed kv → Option (Result (Mixed kv))
  mixed_loop zero s = none
  mixed_loop (suc fuel) s =
      let (stop, limit) = is_done s.limit (pos 1) 0 in
      let s' = record s { limit = limit } in
      if stop
      then some (done s')
      else elim (mixed_round s') [ done t ↦ mixed_loop fuel t | fault e ↦ some (fault e) ]

  -- The end of the method.
  pub mixed_end : Mixed kv → Mixed kv
  mixed_end s =
      let w = s.worker in
      record s {
        worker = record w {
          stats =
              Stats.add_message (text s.reads_done s.writes_done readwrites w.found)
                (Stats.add_bytes w.bytes w.stats);
        };
      }

  -- The locals at the start of the method; `flags_value_size` is what the generator's constructor
  -- reads.
  pub mixed_start : ℕ → Worker kv → Mixed kv
  mixed_start flags_value_size w = record {
    worker = begin kv cfg false 0 w;
    gen = random_generator flags_value_size;
    value = [];
    weights = record { get_weight = pos 0; put_weight = pos 0 };
    reads_done = 0;
    writes_done = 0;
    limit = duration 0 readwrites 0;
  }

  -- `ReadRandomWriteRandom`
  pub read_random_write_random : ℕ → ℕ → Worker kv → Option (Result (Mixed kv))
  read_random_write_random fuel flags_value_size w =
      elim (mixed_loop fuel (mixed_start flags_value_size w)) [
        | some (done s) ↦ some (done (mixed_end s))
        | some (fault e) ↦ some (fault e)
        | none ↦ none
      ]
