-- ===== src/Kv/Pmemkv/Tests.antt =====
-- `pmkv_open` over a library in memory.
use mss_kv_lab.Base.{◌≡◌, refl, codes, none, some}
use mss_kv_lab.Kv.Ram.{empty}
use mss_kv_lab.Kv.Pmemkv.{pmkv_open, assert_config, assert_ok, opened_db}
use mss_kv_lab.Kv.Pmemkv.Opening.{OpenedBy, pmkv_open_lem}
use mss_kv_lab.Kv.Pmemkv.RamLib.{Settings, lib, lib-Configured}

pmkv_open_lem_example :
    (c : Settings) × (c.texts (codes "path") ≡ some (codes "pool"))
    × (c.numbers (codes "size") ≡ some 1024)
    × (c.numbers (codes "force_create") ≡ some 1)
    × OpenedBy lib lib-Configured c none (some (empty 10), none)
unfolding pmkv_open assert_config assert_ok opened_db
pmkv_open_lem_example =
    pmkv_open_lem lib lib-Configured (codes "pool") 1024 1 none (some (empty 10), none) refl
