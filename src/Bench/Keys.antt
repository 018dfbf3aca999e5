-- ===== src/Bench/Keys.antt =====
-- `GenerateKeyFromInt` of bench/bench.cc, and the numbers that the loops make keys of.
pub mod Distinct
mod Tests
use mss_kv_lab.Base.{ℕ, zero, suc, ◌+◌, ◌-◌, ◌*◌, ◌/◌, ◌%◌, ◌^◌, min, Bool, [], ◌∷◌, ◌++◌}
use mss_kv_lab.Base.{Bytes, length, take, drop, replicate, ltb, if◌then◌else◌}

-- `memcpy(buf + at, src, n)` with the n bytes of `src`; the block lies inside the buffer.
abbrev pub copy_to : Bytes → ℕ → Bytes → Bytes
copy_to buf at src = take at buf ++ (src ++ drop (at + length src) buf)

-- The first `n` bytes of an integer in memory, on the little-endian machines that the benchmark
-- is built for.
abbrev pub le_bytes : ℕ → ℕ → Bytes
le_bytes zero v = []
le_bytes (suc n) v = (v % 256) ∷ le_bytes n (v / 256)

-- `key` is the buffer that the slice refers to, of `key_size` bytes; the result is what it holds
-- after the call.
unfoldable pub generate_key_from_int : ℕ → ℕ → Bytes → Bytes
generate_key_from_int key_size v key =
    let bytes_to_fill = min key_size 8 in
    let key' = copy_to key 0 (le_bytes bytes_to_fill v) in
    if ltb bytes_to_fill key_size
    then copy_to key' bytes_to_fill (replicate (key_size - bytes_to_fill) b'0')
    else key'

-- `int` arithmetic, and the conversion of an `int` to `uint64_t`, which extends its sign.
abbrev pub int32 : ℕ → ℕ
int32 n = n % 2 ^ 32

abbrev pub to_uint64 : ℕ → ℕ
to_uint64 w = if ltb w (2 ^ 31) then w else w + (2 ^ 64 - 2 ^ 32)

-- `i + thread->tid * num_`
unfoldable pub seq_number : ℕ → ℕ → ℕ → ℕ
seq_number num tid i = to_uint64 (int32 (i + int32 (tid * num)))
