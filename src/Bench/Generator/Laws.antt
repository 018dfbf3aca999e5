-- ===== src/Bench/Generator/Laws.antt =====
-- What `Generate` cuts out.
use native.Mathlib.Decide.{dec_lt}
use mss_kv_lab.Base.{
  true, false, ◌⊎◌, ℕ, zero, suc, ◌+◌, ◌^◌, ◌≤◌, ◌<◌, max, ◌≡◌, refl, ap, ◌∙◌, [], ◌++◌, Bytes,
  length, take, drop, length-append, length-take, length-drop, leb, ltb, arith, Bool-cases, inl,
  inr, ltb→le,
}
use mss_kv_lab.Base.Result.{done, fault, undefined}
use mss_kv_lab.Util.Random.{Random, random}
use mss_kv_lab.Util.RandomData.{compressible_string}
use mss_kv_lab.Util.RandomData.Laws.{Printable, Printable-append, compressible_string-Printable}
use mss_kv_lab.Bench.Generator.{
  Generator, fill, random_generator, add_uint32, start_of, generate, generated, to_string,
}

fill-Printable :
    (fuel limit : ℕ) (rnd : Random) (text : Bytes)
    → Printable text
    → Printable (fill fuel limit rnd text)
unfolding fill
fill-Printable zero limit rnd text p = p
fill-Printable (suc fuel) limit rnd text p = elim (Bool-cases (ltb (length text) limit)) [
  | inl short ↦
      let (piece, rnd') = compressible_string rnd 1 1 100 in
      rw short (
        fill-Printable fuel limit rnd' (text ++ piece)
          (Printable-append text piece p (compressible_string-Printable rnd 1 1 100).1))
  | inr long ↦ rw long p
]

fill-long :
    (fuel limit : ℕ) (rnd : Random) (text : Bytes)
    → limit ≤ length text + fuel
    → length text < limit + 100
    → (limit ≤ length (fill fuel limit rnd text))
      × (length (fill fuel limit rnd text) < limit + 100)
unfolding fill
fill-long zero limit rnd text enough short = (omega arith, short)
fill-long (suc fuel) limit rnd text enough bound = elim (Bool-cases (ltb (length text) limit)) [
  | inl short ↦
      let (piece, rnd') = compressible_string rnd 1 1 100 in
      let size : length (text ++ piece) ≡ length text + 100 =
        length-append text piece
        ∙ ap (λ n. length text + n) (compressible_string-Printable rnd 1 1 100).0 in
      rw short
        (fill-long fuel limit rnd' (text ++ piece) (omega (arith, size)) (ground (arith, size)))
  | inr long ↦ rw long (ltb→le (length text) limit long, bound)
]

-- The constructor ends with a string of printable characters that is at least as long as a mebibyte
-- and as any value asked for, and at most 99 longer.
pub random_generator_lem :
    (value_size : ℕ)
    → let text = (random_generator value_size).text in
      (max 1048576 value_size ≤ length text)
      × (length text < max 1048576 value_size + 100)
      × Printable text
unfolding random_generator
random_generator_lem value_size =
    let limit = max 1048576 value_size in
    let (long, short) = fill-long limit limit (random 301) [] (omega arith) (omega arith) in
    (long, short, fill-Printable limit limit (random 301) [] tt)

-- The position is inside the string, which is short enough for 32-bit sums.
pub record InRange (g : Generator) : Type 0 where
  pub inside : g.pos ≤ length g.text
  pub small : length g.text < 2 ^ 31

pub random_generator-InRange :
    (value_size : ℕ) → value_size + 100 ≤ 2 ^ 31 → InRange (random_generator value_size)
unfolding random_generator
random_generator-InRange value_size h =
    let (_, short, _) = random_generator_lem value_size in
    record { inside = omega arith; small = omega (arith, short) }

-- Where `Generate` puts its slice.
generate-inside :
    (g : Generator) (len : ℕ)
    → InRange g
    → len ≤ length g.text
    → let (s, g') = generate g len in
      (s.start + len ≤ length g.text) × (g'.pos ≡ s.start + len) × InRange g'
unfolding generate
generate-inside g len range fits =
    let pos = add_uint32 (start_of g len) len in
    let inside : (len ≤ pos) × (pos ≤ length g.text) = ground (arith, range.inside, range.small) in
    (
      omega (arith, inside),
      omega (arith, inside),
      record { inside = inside.1; small = range.small },
    )

le→leb : (a b : ℕ) → a ≤ b → leb a b ≡ true
le→leb a b h = ground arith

lt→leb : (a b : ℕ) → a < b → leb b a ≡ false
lt→leb a b h = ground arith

-- `Generate` on a length up to the string's gives a slice of that many bytes inside the string,
-- which ends at the new position; the string stays as it is, the position in range, and `ToString`
-- copies just that block. On any longer length, since the assertion is compiled out, it gives a
-- slice of that length, and `ToString` reads outside the string.
pub generate_lem :
    (g : Generator) (len : ℕ)
    → InRange g
    → let (s, g') = generate g len in
      (s.size ≡ len)
      × (g'.text ≡ g.text)
      × (((len ≤ length g.text)
            × (s.start + len ≤ length g.text)
            × (g'.pos ≡ s.start + len)
            × InRange g'
            × (to_string g.text s ≡ done (take len (drop s.start g.text)))
            × (length (take len (drop s.start g.text)) ≡ len))
          ⊎ ((length g.text < len) × (to_string g.text s ≡ fault undefined)))
unfolding generate to_string
generate_lem g len range = (
  refl,
  refl,
  elim (dec_lt (length g.text) len) [
    | no fits ↦
        let s = (generate g len).0 in
        let (inside, at, range') = generate-inside g len range (omega arith) in
        inl (
          omega arith,
          inside,
          at,
          range',
          rw (le→leb (s.start + len) (length g.text) inside) refl,
          omega (arith, inside, length-take len (drop s.start g.text), length-drop s.start g.text),
        )
    | yes long ↦
        let s = (generate g len).0 in
        inr (long, rw (lt→leb (length g.text) (s.start + len) (omega arith)) refl)
  ],
)

-- A value that fits the string.
pub generate-fits :
    (g : Generator) (len : ℕ)
    → InRange g
    → len ≤ length g.text
    → (at : ℕ) × (g' : Generator) × (generated g len ≡ done (take len (drop at g.text), g'))
      × (g'.text ≡ g.text)
      × InRange g'
      × (length (take len (drop at g.text)) ≡ len)
unfolding generated
generate-fits g len range fits =
    let (_, same_text, outcome) = generate_lem g len range in
    elim outcome [
      | inl (_, _, _, range', copied, size) ↦
          ((generate g len).0.start, (generate g len).1, rw copied refl, same_text, range', size)
      | inr (long, _) ↦ absurd (omega arith)
    ]
