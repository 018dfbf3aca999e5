-- ===== src/Bench/Mixed/Tests.antt =====
-- Six rounds over a small store.
use mss_kv_lab.Base.{ℕ, false, [], ◌∷◌, Bytes, replicate}
use mss_kv_lab.Base.Int.{pos}
use mss_kv_lab.Kv.Ram.{ram, empty}
use mss_kv_lab.Util.Histogram
use mss_kv_lab.Bench.Workload.{Config, Worker}
use mss_kv_lab.Bench.Mixed.{Mixed}

abbrev cfg : Config
cfg = record {
  flags_num = 3;
  flags_histogram = false;
  num = 3;
  reads = 250;
  value_size = 2;
  key_size = 10;
  clock = λ i. i;
  ops_text = λ n. n ∷ [];
  found_text = λ n m. n ∷ m ∷ [];
}

abbrev thread : Worker ram
thread = record {
  store = empty 10;
  rand = record { seed = 1001 };
  stats = record {
    begin = 0;
    finish = 0;
    elapsed = pos 0;
    ops_done = 0;
    next_report = 100;
    bytes = 0;
    last_op_finish = 0;
    hist = Histogram.clear;
    message = [];
    exclude_from_merge = false;
  };
  key = replicate 10 255;
  bytes = 7;
  found = 7;
}

abbrev four_numbers : ℕ → ℕ → ℕ → ℕ → Bytes
four_numbers a b c d = a ∷ b ∷ c ∷ d ∷ []
