-- ===== src/Bench/Parallel.antt =====
-- `RunBenchmark` and `ThreadBody` of bench/bench.cc for the simple workloads: n threads that share
-- the one store `kv_`. What a thread does in one round of its method's loop is one step, so the
-- calls of the store follow one another in some order, which is the list `schedule` of the threads'
-- numbers; that a single call is not interrupted is up to the library. The barriers before and
-- after the methods are the subject of Bench/Threads.antt.
pub mod Turns
mod Keys
mod Fill
pub mod Outcome
pub mod Read
pub mod Write
pub mod Delete
pub mod Sequence
pub mod EndToEnd
pub mod Barriers
mod Tests
use mss_kv_lab.Base.{
  ℕ, suc, ◌+◌, Bool, true, false, Option, none, some, List, [], ◌∷◌, Bytes, ltb, ◌==◌, ◌&&◌,
  if◌then◌else◌,
}
use mss_kv_lab.Base.Result.{Result, done, fault, ◌>>=◌}
use mss_kv_lab.Kv.{Pmkv}
use mss_kv_lab.Util.Random.{random}
use mss_kv_lab.Bench.Stats
use mss_kv_lab.Bench.Stats.{Stats}
use mss_kv_lab.Bench.Workload.{
  Config, Worker, begin, announced, write_round, read_round, delete_round,
}
use mss_kv_lab.Bench.Run.{
  Method, write_seq, write_random, read_seq, read_random, read_missing, delete_seq, delete_random,
  read_while_writing, read_random_write_random,
}

-- `DoWrite`, `DoRead` and `DoDelete`, with their argument `seq`.
pub data Task : Type 0 where
  writes reads deletes : Bool → Task

-- `WriteSeq`, …, `DeleteRandom`, as what they call.
unfoldable pub simple_task : Method → Option Task
simple_task write_seq = some (writes true)
simple_task write_random = some (writes false)
simple_task read_seq = some (reads true)
simple_task read_random = some (reads false)
simple_task read_missing = some (reads false)
simple_task delete_seq = some (deletes true)
simple_task delete_random = some (deletes false)
simple_task read_while_writing = none
simple_task read_random_write_random = none

-- What differs from thread to thread besides its number: the readings of the clock, and what the
-- memory of its `Stats` and of its key's buffer holds at first.
pub record Machine : Type 0 where
  pub created : ℕ → ℕ
  pub started : ℕ → ℕ
  pub clock : ℕ → ℕ → ℕ
  pub stopped : ℕ → ℕ
  pub old_stats : ℕ → Stats
  pub old_key : ℕ → Bytes

abbrev pub set_at {ℓ} : {A : Type ℓ} → (ℕ → A) → ℕ → A → ℕ → A
set_at f t a j = if t == j then a else f j

module _ (kv : Pmkv) (cfg0 : Config) (m : Machine) where
  -- The fields and flags as thread t sees them, with its own readings of the clock.
  abbrev pub cfg_of : ℕ → Config
  cfg_of t = record cfg0 { clock = m.clock t }

  -- How many rounds the method's loop has.
  abbrev pub rounds : Task → ℕ
  rounds (writes seq) = cfg0.num
  rounds (reads seq) = cfg0.reads
  rounds (deletes seq) = cfg0.num

  -- What the method does before its loop.
  abbrev pub prepare : Task → ℕ → Worker kv → Worker kv
  prepare (writes seq) t w0 =
      let w = begin kv (cfg_of t) seq t w0 in
      record w { stats = announced kv (cfg_of t) seq t w.stats }
  prepare (reads seq) t w = begin kv (cfg_of t) seq t w
  prepare (deletes seq) t w = begin kv (cfg_of t) seq t w

  -- Round i of its loop.
  abbrev pub round : Task → ℕ → ℕ → Worker kv → Result (Worker kv)
  round (writes seq) t i w = write_round kv (cfg_of t) seq t i w
  round (reads seq) t i w = done (read_round kv (cfg_of t) seq t i w)
  round (deletes seq) t i w = done (delete_round kv (cfg_of t) seq t i w)

  -- What it does after its loop.
  abbrev pub conclude : Task → Worker kv → Worker kv
  conclude (writes seq) w = record w { stats = Stats.add_bytes w.bytes w.stats }
  conclude (reads seq) w = record w {
    stats =
        Stats.add_message (cfg0.found_text w.found cfg0.reads) (Stats.add_bytes w.bytes w.stats);
  }
  conclude (deletes seq) w = w

  -- The store of all threads, and of each thread the round it has come to and what it has of its
  -- own. The store in a thread's `Worker` is the one that its last round left.
  pub record Shared : Type 0 where
    pub store : kv.Store
    pub index : ℕ → ℕ
    pub worker : ℕ → Worker kv

  -- What thread t works on in its next round.
  abbrev pub view : ℕ → Shared → Worker kv
  view t s = let w = s.worker t in record w { store = s.store }

  -- What the round of thread t leaves.
  abbrev pub advanced : ℕ → Shared → Worker kv → Shared
  advanced t s w = record {
    store = w.store;
    index = set_at s.index t (suc (s.index t));
    worker = set_at s.worker t w;
  }

  -- `ThreadState(t)`, when the method of thread t is called.
  abbrev pub first_worker : ℕ → kv.Store → Worker kv
  first_worker t store = record {
    store = store;
    rand = random (1000 + t);
    stats = Stats.start (m.started t) (Stats.start (m.created t) (m.old_stats t));
    key = m.old_key t;
    bytes = 0;
    found = 0;
  }

  abbrev pub new_worker : Task → ℕ → kv.Store → Worker kv
  new_worker task t store = prepare task t (first_worker t store)

  abbrev pub all_started : Task → kv.Store → Shared
  all_started task store = record {
    store = store;
    index = λ t. 0;
    worker = λ t. new_worker task t store;
  }

  module _ (n : ℕ) (task : Task) where
    abbrev pub take_round : ℕ → Shared → Result Shared
    take_round t s = do w ← round task t (s.index t) (view t s); done (advanced t s w)

    -- A round of thread t, if there is such a thread and it has a round left.
    unfoldable pub turn : ℕ → Shared → Result Shared
    turn t s = if ltb t n && ltb (s.index t) (rounds task) then take_round t s else done s

    unfoldable pub run_turns : List ℕ → Shared → Result Shared
    run_turns [] s = done s
    run_turns (t ∷ ts) s = do s' ← turn t s; run_turns ts s'

  -- The end of `ThreadBody`: the statistics that are reported of thread t.
  abbrev pub final_stats : Task → ℕ → Shared → Stats
  final_stats task t s = Stats.stop (m.stopped t) (conclude task (s.worker t)).stats

-- `RunBenchmark` on the store, for the methods with a task; `others` are the other methods. The
-- order of the calls and the readings of the clock are given for each method.
unfoldable pub run_benchmark :
    (kv : Pmkv) (cfg : Config) (machine : Method → Machine) (schedule : Method → List ℕ)
    → (others : Method → ℕ → kv.Store → Result kv.Store) → Method
    → ℕ
    → kv.Store
    → Result kv.Store
run_benchmark kv cfg machine schedule others method n store = run_task (simple_task method)
  where
    run_task : Option Task → Result kv.Store
    run_task none = others method n store
    run_task (some task) = do
      s ←
          run_turns kv cfg (machine method) n task (schedule method)
            (all_started kv cfg (machine method) task store)
      done s.store
