-- ===== src/Bench/Generator.antt =====
-- `RandomGenerator` of bench/bench.cc: values cut out of one long random string.
pub mod Laws
mod Tests
use mss_kv_lab.Base.{
  ℕ, zero, suc, ◌+◌, ◌-◌, ◌%◌, ◌^◌, max, [], ◌++◌, Bytes, length, take, drop, leb, ltb,
  if◌then◌else◌,
}
use mss_kv_lab.Base.Result.{Result, done, fault, undefined, ◌>>=◌}
use mss_kv_lab.Util.Random.{Random, random}
use mss_kv_lab.Util.RandomData.{compressible_string}

pub record Generator : Type 0 where
  pub text : Bytes
  pub pos : ℕ

-- The loop of the constructor, on `fuel`, for pieces of a hundred characters; `limit` rounds are
-- enough.
unfoldable pub fill : ℕ → ℕ → Random → Bytes → Bytes
fill zero limit rnd text = text
fill (suc fuel) limit rnd text =
    let (piece, rnd') = compressible_string rnd 1 1 100 in
    let rest = fill fuel limit rnd' (text ++ piece) in
    if ltb (length text) limit then rest else text

-- `std::max(1048576, FLAGS_value_size)`
abbrev pub text_limit : ℕ → ℕ
text_limit flags_value_size = max 1048576 flags_value_size

unfoldable pub random_generator : ℕ → Generator
random_generator flags_value_size =
    let limit = text_limit flags_value_size in
    record { text = fill limit limit (random 301) []; pos = 0 }

-- `pos_ + len` is computed as `unsigned int`.
abbrev pub add_uint32 : ℕ → ℕ → ℕ
add_uint32 a b = (a + b) % 2 ^ 32

-- `if (pos_ + len > data_.size()) pos_ = 0;`
abbrev pub start_of : Generator → ℕ → ℕ
start_of g len = if ltb (length g.text) (add_uint32 g.pos len) then 0 else g.pos

-- A `Slice`: where it begins in the string, and its size.
pub record Slice : Type 0 where
  pub start : ℕ
  pub size : ℕ

-- `Generate`, and `GenerateWithTTL`, which has the same body. The build defines `NDEBUG`
-- (bench/Makefile), so the assertion is not there. A slice longer than the string may begin before
-- it, which is 0 here.
unfoldable pub generate : Generator → ℕ → Slice × Generator
generate g len =
    let pos = add_uint32 (start_of g len) len in
    (record { start = pos - len; size = len }, record g { pos = pos })

-- `ToString`: a slice that passes the end of the string is read outside of it.
unfoldable pub to_string : Bytes → Slice → Result Bytes
to_string text s =
    if leb (s.start + s.size) (length text)
    then done (take s.size (drop s.start text))
    else fault undefined

-- `gen.Generate(len).ToString()`
unfoldable pub generated : Generator → ℕ → Result (Bytes × Generator)
generated g len =
    let (slice, g') = generate g len in do value ← to_string g.text slice; done (value, g')
