-- ===== src/Bench/Environment/Laws.antt =====
-- What `PrintEnvironment` finds in a file of entries that are laid out as in /proc/cpuinfo.
use mss_kv_lab.Base.{
  ℕ, ◌+◌, ◌≡◌, refl, sym, ap, ap₂, ◌∙◌, Bool, true, false, not, ◌&&◌, none, some, List, [], ◌∷◌,
  ◌++◌, Bytes, bytes_eq, bytes_eq_iff, codes, length, length-append, take, ◌==◌, if◌then◌else◌,
  arith, Bool-cases, inl, inr,
}
use mss_kv_lab.Bench.Environment.{
  at_colon, CpuInfo, no_info, note_entry, trim_space, read_entry, read_lines,
}
use mss_kv_lab.Bench.Environment.Trim.{
  all_space, take-append, starts_bare, ends_bare, trim_space-padded,
}

abbrev pub no_colon : Bytes → Bool
no_colon [] = true
no_colon (c ∷ cs) = not (c == 58) && no_colon cs

abbrev pub is_text : Bytes → Bool
is_text [] = false
is_text (c ∷ cs) = starts_bare (c ∷ cs) && ends_bare (c ∷ cs)

-- A name and a value: texts that neither begin nor end with white space; the name has no colon.
pub record Entry : Type 0 where
  pub name : Bytes
  pub value : Bytes
  pub name_text : is_text name ≡ true
  pub name_plain : no_colon name ≡ true
  pub value_text : is_text value ≡ true

-- The name, a tab, a colon, a space, the value and a newline.
abbrev pub line_of : Entry → Bytes
line_of e = e.name ++ (9 ∷ 58 ∷ 32 ∷ (e.value ++ (10 ∷ [])))

abbrev pub lines_of : List Entry → List Bytes
lines_of [] = []
lines_of (e ∷ es) = line_of e ∷ lines_of es

abbrev pub count_of : Bytes → List Entry → ℕ
count_of name [] = 0
count_of name (e ∷ es) = if bytes_eq e.name name then count_of name es + 1 else count_of name es

-- The value of the last entry with the name, or `old`.
abbrev pub last_value : Bytes → Bytes → List Entry → Bytes
last_value name old [] = old
last_value name old (e ∷ es) = last_value name (if bytes_eq e.name name then e.value else old) es

at_colon-plain :
    (name after : Bytes)
    → no_colon name ≡ true
    → at_colon (name ++ (9 ∷ 58 ∷ after)) ≡ some (name ++ (9 ∷ []), after)
unfolding at_colon
at_colon-plain [] after h = refl
at_colon-plain (c ∷ cs) after h = elim (Bool-cases (c == 58)) [
  | inl e ↦ cc (h, e)
  | inr e ↦ rw (e, at_colon-plain cs after (rw e at h)) refl
]

trim_space-text :
    (a s b : Bytes)
    → is_text s ≡ true
    → all_space a ≡ true
    → all_space b ≡ true
    → trim_space (a ++ (s ++ b)) ≡ s
trim_space-text a [] b h ha hb = cc h
trim_space-text a (c ∷ cs) b h ha hb =
    trim_space-padded a c cs b ha hb (ground (arith, h)) (ground (arith, h))

append_nil : (s : Bytes) → s ++ [] ≡ s
append_nil [] = refl
append_nil (c ∷ cs) = ap (λ r. c ∷ r) (append_nil cs)

read_entry-line :
    (name value : Bytes) (i : CpuInfo)
    → is_text name ≡ true
    → is_text value ≡ true
    → read_entry (some (name ++ (9 ∷ []), 32 ∷ (value ++ (10 ∷ [])))) i
      ≡ some (note_entry name value i)
unfolding read_entry
read_entry-line [] value i hn hv = cc hn
read_entry-line (c ∷ cs) value i hn hv =
    let name = c ∷ cs in
    let size : length (cs ++ (9 ∷ [])) ≡ length name = length-append cs (9 ∷ []) ∙ omega arith in
    let key : trim_space name ≡ name =
      ap trim_space (sym (append_nil name)) ∙ trim_space-text [] name [] hn refl refl in
    let cut : trim_space (take (length (cs ++ (9 ∷ []))) (name ++ (9 ∷ []))) ≡ name =
      ap (λ k. trim_space (take k (name ++ (9 ∷ [])))) size
      ∙ (ap trim_space (take-append name (9 ∷ [])) ∙ key) in
    ap₂ (λ k v. some (note_entry k v i)) cut
      (trim_space-text (32 ∷ []) value (10 ∷ []) hv refl refl)

abbrev pub found_in : List Entry → CpuInfo → CpuInfo
found_in es i = record {
  num_cpus = i.num_cpus + count_of (codes "model name") es;
  cpu_type = last_value (codes "model name") i.cpu_type es;
  cache_size = last_value (codes "cache size") i.cache_size es;
}

note_entry-found :
    (e : Entry) (es : List Entry) (i : CpuInfo)
    → found_in es (note_entry e.name e.value i) ≡ found_in (e ∷ es) i
unfolding note_entry
note_entry-found e es i = elim (Bool-cases (bytes_eq e.name (codes "model name"))) [
  | inl m ↦
      let other : bytes_eq e.name (codes "cache size") ≡ false =
        ap (λ n. bytes_eq n (codes "cache size")) ((bytes_eq_iff e.name _).0 m) in
      rw (m, other)
        (ap
          (λ n. record {
            num_cpus = n;
            cpu_type = last_value (codes "model name") e.value es;
            cache_size = last_value (codes "cache size") i.cache_size es;
          })
          (omega arith))
  | inr m ↦ elim (Bool-cases (bytes_eq e.name (codes "cache size"))) [
    | inl k ↦ rw (m, k) refl
    | inr k ↦ rw (m, k) refl
  ]
]

read_lines-found :
    (es : List Entry) (i : CpuInfo) → read_lines (lines_of es) i ≡ some (found_in es i)
unfolding read_lines
read_lines-found [] i =
    ap (λ n. some (record { num_cpus = n; cpu_type = i.cpu_type; cache_size = i.cache_size }))
      (omega arith)
read_lines-found (e ∷ es) i =
    ap (λ o. elim o [ none ↦ none | some j ↦ read_lines (lines_of es) j ])
      (ap (λ o. read_entry o i) (at_colon-plain e.name (32 ∷ (e.value ++ (10 ∷ []))) e.name_plain)
        ∙ read_entry-line e.name e.value i e.name_text e.value_text)
    ∙ (read_lines-found es (note_entry e.name e.value i) ∙ ap some (note_entry-found e es i))

-- On a file whose lines are entries, the loop in PrintEnvironment ends within the lines, and it
-- finds as many processors as there are entries `model name`, the value of the last of them, and
-- the value of the last entry `cache size`.
pub cpuinfo_lem : (es : List Entry) → read_lines (lines_of es) no_info ≡ some (found_in es no_info)
cpuinfo_lem es = read_lines-found es no_info
