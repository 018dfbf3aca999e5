-- ===== src/Util/Random/Tests.antt =====
-- The generator of the benchmark's second thread, of seed 1001.
use mss_kv_lab.Base.{◌*◌, ◌%◌, ◌≡◌}
use mss_kv_lab.Util.Random.{Random, IsGood, random, random-IsGood, next, next_lem}

abbrev second : Random
second = random 1001

next_lem_example :
    ((next second).0 ≡ (second.seed * 16807) % 2147483647)
    × ((next second).1.seed ≡ (next second).0)
    × IsGood (next second).1
next_lem_example = next_lem second (random-IsGood 1001)
