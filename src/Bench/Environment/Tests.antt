-- ===== src/Bench/Environment/Tests.antt =====
-- Runs of the reading of /proc/cpuinfo, and the theorem about it at a concrete file.
use mss_kv_lab.Base.{◌≡◌, refl, some, none, [], ◌∷◌, codes}
use mss_kv_lab.Bench.Environment.{
  first_kept, last_kept, trim_space, at_colon, note_entry, read_entry, read_lines, no_info,
}
use mss_kv_lab.Bench.Environment.Laws.{Entry, lines_of}

abbrev model : Entry
model = record {
  name = codes "model name";
  value = codes "Xeon E5: 8 cores";
  name_text = refl;
  name_plain = refl;
  value_text = refl;
}

abbrev cache : Entry
cache = record {
  name = codes "cache size";
  value = codes "20 MB";
  name_text = refl;
  name_plain = refl;
  value_text = refl;
}

two_cpus :
    read_lines (lines_of (model ∷ cache ∷ model ∷ [])) no_info
    ≡ some
        (record { num_cpus = 2; cpu_type = codes "Xeon E5: 8 cores"; cache_size = codes "20 MB" })
unfolding read_lines read_entry note_entry at_colon trim_space first_kept last_kept
two_cpus = refl

only_spaces : trim_space (codes "   ") ≡ []
unfolding trim_space first_kept last_kept
only_spaces = refl

-- A line without a colon is skipped, and one that begins with a colon makes the key too long.
other_lines : read_lines (codes "flags" ∷ []) no_info ≡ some no_info
unfolding read_lines read_entry at_colon
other_lines = refl

leading_colon : read_lines (codes ": 1" ∷ []) no_info ≡ none
unfolding read_lines read_entry at_colon
leading_colon = refl
