-- ===== src/Util/RandomData.antt =====
-- bench/util/testutil.cc: random strings, and strings that repeat a random piece. A string that a
-- function fills in is part of its result.
pub mod Laws
mod Tests
use mss_kv_lab.Base.{
  ℕ, zero, suc, ◌+◌, ◌*◌, ◌/◌, List, [], ◌∷◌, ◌++◌, Bytes, length, take, get_or, ltb, if◌then◌else◌,
}
use mss_kv_lab.Util.Random.{Random, uniform}

-- `RandomString`: characters from ' ' to '~'.
unfoldable pub random_string : Random → ℕ → Bytes × Random
random_string rnd zero = ([], rnd)
random_string rnd (suc len) =
    let (x, rnd1) = uniform rnd 95 in
    let (rest, rnd2) = random_string rnd1 len in ((b' ' + x) ∷ rest, rnd2)

-- `kTestChars`
abbrev pub test_chars : Bytes
test_chars = 0 ∷ 1 ∷ b'a' ∷ b'b' ∷ b'c' ∷ b'd' ∷ b'e' ∷ 253 ∷ 254 ∷ 255 ∷ []

-- `RandomKey`
unfoldable pub random_key : Random → ℕ → Bytes × Random
random_key rnd zero = ([], rnd)
random_key rnd (suc len) =
    let (x, rnd1) = uniform rnd 10 in
    let (rest, rnd2) = random_key rnd1 len in (get_or test_chars x 0 ∷ rest, rnd2)

-- `while (dst->size() < len) dst->append(raw_data);` on `fuel`; `len` rounds are enough when
-- `raw_data` is not empty.
unfoldable pub append_until : ℕ → ℕ → Bytes → Bytes → Bytes
append_until zero len raw_data dst = dst
append_until (suc fuel) len raw_data dst =
    let rest = append_until fuel len raw_data (dst ++ raw_data) in
    if ltb (length dst) len then rest else dst

-- `if (raw < 1) raw = 1;`
abbrev pub at_least_one : ℕ → ℕ
at_least_one zero = 1
at_least_one (suc n) = suc n

-- `CompressibleString`, for the fraction num / den; `den` is positive.
unfoldable pub compressible_string : Random → ℕ → ℕ → ℕ → Bytes × Random
compressible_string rnd num den len =
    let (raw_data, rnd') = random_string rnd (at_least_one (len * num / den)) in
    (take len (append_until len len raw_data []), rnd')
