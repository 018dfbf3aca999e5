-- ===== src/Bench/Generator/Tests.antt =====
-- A generator over three bytes, and the constructor's.
use mss_kv_lab.Base.{◌⊎◌, ◌+◌, ◌≤◌, ◌<◌, ◌≡◌, refl, max, [], ◌∷◌, length, take, drop, arith}
use mss_kv_lab.Base.Result.{done, fault, undefined}
use mss_kv_lab.Util.RandomData.Laws.{Printable}
use mss_kv_lab.Bench.Generator.{Generator, random_generator, generate, generated, to_string}
use mss_kv_lab.Bench.Generator.Laws.{InRange, random_generator_lem, generate_lem}

abbrev three : Generator
three = record { text = 7 ∷ 8 ∷ 9 ∷ []; pos = 2 }

three-InRange : InRange three
three-InRange = record { inside = omega arith; small = omega arith }

random_generator_lem_example :
    (max 1048576 100 ≤ length (random_generator 100).text)
    × (length (random_generator 100).text < max 1048576 100 + 100)
    × Printable (random_generator 100).text
random_generator_lem_example = random_generator_lem 100

generate_lem_example :
    let (s, g') = generate three 2 in
    (s.size ≡ 2)
    × (g'.text ≡ three.text)
    × (((2 ≤ 3)
          × (s.start + 2 ≤ 3)
          × (g'.pos ≡ s.start + 2)
          × InRange g'
          × (to_string three.text s ≡ done (take 2 (drop s.start three.text)))
          × (length (take 2 (drop s.start three.text)) ≡ 2))
        ⊎ ((3 < 2) × (to_string three.text s ≡ fault undefined)))
generate_lem_example = generate_lem three 2 three-InRange

-- The position goes back to the front, and a length that passes the end reads outside.
wraps : generated three 2 ≡ done (7 ∷ 8 ∷ [], record three { pos = 2 })
unfolding generated generate to_string
wraps = refl

too_long : generated three 4 ≡ fault undefined
unfolding generated generate to_string
too_long = refl
