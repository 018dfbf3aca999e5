-- ===== src/Bench/Environment.antt =====
-- `TrimSpace` and `PrintEnvironment` of bench/bench.cc: what the benchmark reads of /proc/cpuinfo.
-- A line is what `fgets` returns, without the terminating zero.
mod Trim
mod Laws
mod Tests
use mss_kv_lab.Base.{
  ℕ, zero, suc, ◌+◌, ◌-◌, Bool, true, false, ◌&&◌, ◌||◌, Option, none, some, List, [], ◌∷◌, Bytes,
  bytes_eq, codes, length, get_or, take, drop, ltb, leb, ◌==◌, if◌then◌else◌,
}

-- `isspace` in the C locale
abbrev pub is_space : ℕ → Bool
is_space c = c == 32 || leb 9 c && leb c 13

-- `while (start < s.size() && isspace(s[start])) start++;`, from the part of s after `start`.
unfoldable pub first_kept : ℕ → Bytes → ℕ
first_kept start [] = start
first_kept start (c ∷ cs) =
    let rest = first_kept (start + 1) cs in if is_space c then rest else start

-- `while (limit > start && isspace(s[limit - 1])) limit--;`
unfoldable pub last_kept : Bytes → ℕ → ℕ → ℕ
last_kept s start zero = 0
last_kept s start (suc n) =
    let rest = last_kept s start n in
    if ltb start (suc n) && is_space (get_or s n 0) then rest else suc n

unfoldable pub trim_space : Bytes → Bytes
unfolding first_kept last_kept
trim_space s =
    let start = first_kept 0 s in
    let limit = last_kept s start (length s) in take (limit - start) (drop start s)

-- `strchr(line, ':')`, as the part before the colon and the part after it.
unfoldable pub at_colon : Bytes → Option (Bytes × Bytes)
at_colon [] = none
at_colon (c ∷ cs) =
    let rest = at_colon cs in
    if c == 58
    then some ([], cs)
    else elim rest [ none ↦ none | some parts ↦ some (c ∷ parts.0, parts.1) ]

-- `num_cpus`, `cpu_type` and `cache_size`
pub record CpuInfo : Type 0 where
  pub num_cpus : ℕ
  pub cpu_type : Bytes
  pub cache_size : Bytes

abbrev pub no_info : CpuInfo
no_info = record { num_cpus = 0; cpu_type = []; cache_size = [] }

-- `if (key == "model name") { … } else if (key == "cache size") { … }`
unfoldable pub note_entry : Bytes → Bytes → CpuInfo → CpuInfo
note_entry key val i =
    if bytes_eq key (codes "model name")
    then record i { num_cpus = i.num_cpus + 1; cpu_type = val }
    else if bytes_eq key (codes "cache size")
    then record i { cache_size = val }
    else i

-- One round of the loop. The key is made of `sep - 1 - line` bytes: for a line that begins with the
-- colon, that is a slice far longer than the line, which the loop in `TrimSpace` reads out of
-- bounds; `none`.
unfoldable pub read_entry : Option (Bytes × Bytes) → CpuInfo → Option CpuInfo
unfolding trim_space note_entry
read_entry none i = some i
read_entry (some ([], after)) i = none
read_entry (some (c ∷ cs, after)) i =
    some (note_entry (trim_space (take (length cs) (c ∷ cs))) (trim_space after) i)

unfoldable pub read_lines : List Bytes → CpuInfo → Option CpuInfo
unfolding at_colon read_entry
read_lines [] i = some i
read_lines (line ∷ lines) i = elim (read_entry (at_colon line) i) [
  | none ↦ none
  | some i' ↦ read_lines lines i'
]
