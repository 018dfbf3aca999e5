-- ===== src/Bench/Keys/Distinct.antt =====
-- Which numbers get the same key.
use native.Mathlib.Nat.{mod-lt, mod-add-div', one-le-pow, pow-suc, mul-le-mul_right}
use native.Mathlib.Decide.{dec_lt}
use mss_kv_lab.Base.{
  ℕ, zero, suc, ◌+◌, ◌-◌, ◌*◌, ◌/◌, ◌%◌, ◌^◌, ◌≤◌, ◌<◌, min, ◌≡◌, ◌↔◌, refl, ◌∙◌, ap, ap₂, List, [],
  ◌∷◌, ◌++◌, arith, Bytes, length, take, drop, replicate, length-append, length-drop, Bool-cases,
  inl, inr, ltb, ltb→le, sym, if◌then◌else◌, length-replicate,
}
use mss_kv_lab.Bench.Keys.{copy_to, le_bytes, generate_key_from_int, seq_number}

-- The key of a number, whatever the buffer held before.
abbrev pub key_of : ℕ → ℕ → Bytes
key_of key_size v = le_bytes (min key_size 8) v ++ replicate (key_size - 8) b'0'

pub length-le_bytes : (n v : ℕ) → length (le_bytes n v) ≡ n
length-le_bytes zero v = refl
length-le_bytes (suc n) v = ap suc (length-le_bytes n (v / 256))

drop_all {ℓ} : {A : Type ℓ} (n : ℕ) (xs : List A) → length xs ≤ n → drop n xs ≡ []
drop_all zero [] h = refl
drop_all zero (x ∷ xs) h = absurd (omega arith)
drop_all (suc n) [] h = refl
drop_all (suc n) (x ∷ xs) h = drop_all n xs (omega arith)

take_all {ℓ} : {A : Type ℓ} (xs ys : List A) → take (length xs) (xs ++ ys) ≡ xs
take_all [] ys = refl
take_all (x ∷ xs) ys = ap (λ l. x ∷ l) (take_all xs ys)

drop-append {ℓ} : {A : Type ℓ} (xs ys : List A) → drop (length xs) (xs ++ ys) ≡ ys
drop-append [] ys = refl
drop-append (x ∷ xs) ys = drop-append xs ys

append-nil {ℓ} : {A : Type ℓ} (xs : List A) → xs ++ [] ≡ xs
append-nil [] = refl
append-nil (x ∷ xs) = ap (λ l. x ∷ l) (append-nil xs)

-- Numbers that fit the bytes are told apart.
le_bytes_injective : (n v w : ℕ) → v < 256 ^ n → w < 256 ^ n → le_bytes n v ≡ le_bytes n w → v ≡ w
le_bytes_injective zero v w hv hw e = omega arith
le_bytes_injective (suc n) v w hv hw e =
    let same_rest =
      le_bytes_injective n (v / 256) (w / 256) (omega (arith, pow-suc 256 n))
        (omega (arith, pow-suc 256 n)) (cc e) in
    let same_byte : v % 256 ≡ w % 256 = cc e in omega (arith, same_rest)

le_bytes_wrap : (n v c : ℕ) → le_bytes n (v + c * 256 ^ n) ≡ le_bytes n v
le_bytes_wrap zero v c = refl
le_bytes_wrap (suc n) v c =
    let shift : c * 256 ^ suc n ≡ 256 * (c * 256 ^ n) =
      ap (λ (t : ℕ). c * t) (pow-suc 256 n) ∙ omega arith in
    let low : (v + c * 256 ^ suc n) % 256 ≡ v % 256 = omega (arith, shift) in
    let high : (v + c * 256 ^ suc n) / 256 ≡ v / 256 + c * 256 ^ n = omega (arith, shift) in
    rw (low, high) (ap (λ l. v % 256 ∷ l) (le_bytes_wrap n (v / 256) c))

module _ (front pad key : Bytes) (whole : length key ≡ length front + length pad) where
  overwrite_front : copy_to key 0 front ≡ front ++ drop (length front) key
  overwrite_front = ap (λ n. front ++ drop n key) (omega arith)

  overwrite_back : copy_to (copy_to key 0 front) (length front) pad ≡ front ++ pad
  overwrite_back =
      let rest : Bytes = drop (length front) key in
      let short : length (front ++ rest) ≤ length front + length pad =
        omega (arith, length-append front rest, length-drop (length front) key) in
      rw overwrite_front (
        ap₂ (λ f r. f ++ (pad ++ r)) (take_all front rest)
          (drop_all (length front + length pad) (front ++ rest) short)
        ∙ ap (λ l. front ++ l) (append-nil pad))

padded :
    (m key_size : ℕ) (front key : Bytes)
    → length front ≡ m
    → m ≤ key_size
    → length key ≡ key_size
    → (if ltb m key_size
        then copy_to (copy_to key 0 front) m (replicate (key_size - m) b'0')
        else copy_to key 0 front)
      ≡ front ++ replicate (key_size - m) b'0'
padded m key_size front key e le h = elim (Bool-cases (ltb m key_size)) [
  | inl longer ↦
      let whole : length key ≡ length front + length (replicate {A = ℕ} (key_size - m) b'0') =
        omega (arith, length-replicate {A = ℕ} (key_size - m) b'0') in
      rw longer (
        ap (λ n. copy_to (copy_to key 0 front) n (replicate (key_size - m) b'0')) (sym e)
        ∙ overwrite_back front (replicate (key_size - m) b'0') key whole)
  | inr short ↦
      let none_left : key_size - m ≡ 0 = omega (arith, ltb→le m key_size short) in
      rw (short, none_left)
        (overwrite_front front [] key (omega (arith, ltb→le m key_size short))
          ∙ ap (λ l. front ++ l)
              (drop_all (length front) key (omega (arith, ltb→le m key_size short))))
]

-- Every byte of the buffer is written, so nothing of what it held is left.
pub generate_key-eq-key_of :
    (key_size v : ℕ) (key : Bytes)
    → length key ≡ key_size
    → generate_key_from_int key_size v key ≡ key_of key_size v
unfolding generate_key_from_int
generate_key-eq-key_of key_size v key h =
    padded (min key_size 8) key_size (le_bytes (min key_size 8) v) key
      (length-le_bytes (min key_size 8) v) (omega arith) h
    ∙ ap (λ n. le_bytes (min key_size 8) v ++ replicate n b'0') (omega arith)

pub length-key_of : (key_size v : ℕ) → length (key_of key_size v) ≡ key_size
length-key_of key_size v = omega (
  arith,
  length-append (le_bytes (min key_size 8) v) (replicate (key_size - 8) b'0'),
  length-le_bytes (min key_size 8) v,
  length-replicate {A = ℕ} (key_size - 8) b'0',
)

pub seq_number-eq : (num tid i : ℕ) → tid * num + i < 2 ^ 31 → seq_number num tid i ≡ tid * num + i
unfolding seq_number
seq_number-eq num tid i h = ground arith

pub block_unique :
    (num tid tid' i i' : ℕ)
    → i < num
    → i' < num
    → tid * num + i ≡ tid' * num + i'
    → (tid ≡ tid') × (i ≡ i')
block_unique num tid tid' i i' h h' e = elim (dec_lt tid tid') [
  | yes lt ↦ absurd (omega (arith, mul-le-mul_right num lt))
  | no ge ↦ elim (dec_lt tid' tid) [
    | yes lt ↦ absurd (omega (arith, mul-le-mul_right num lt))
    | no le ↦
        let same : tid ≡ tid' = omega arith in (same, omega (arith, ap (λ (t : ℕ). t * num) same))
  ]
]

front_of : (n v : ℕ) (rest : Bytes) → take n (le_bytes n v ++ rest) ≡ le_bytes n v
front_of zero v rest = refl
front_of (suc n) v rest = ap (λ l. v % 256 ∷ l) (front_of n (v / 256) rest)

module _ (key_size : ℕ) where
  abbrev pub capacity : ℕ
  capacity = 256 ^ min key_size 8

  pub key_of-injective :
      (v w : ℕ) → v < capacity → w < capacity → key_of key_size v ≡ key_of key_size w → v ≡ w
  key_of-injective v w hv hw e = le_bytes_injective (min key_size 8) v w hv hw (
      sym (front_of (min key_size 8) v _)
      ∙ (ap (take (min key_size 8)) e ∙ front_of (min key_size 8) w _))

  key_of-mod : (v : ℕ) → key_of key_size v ≡ key_of key_size (v % capacity)
  key_of-mod v =
      ap (key_of key_size) (sym (mod-add-div' v capacity))
      ∙ ap (λ l. l ++ replicate (key_size - 8) b'0')
          (le_bytes_wrap (min key_size 8) (v % capacity) (v / capacity))

  some_room : 0 < capacity
  some_room = omega (arith, one-le-pow (min key_size 8) 256 (omega arith))

  module _ (old old' : Bytes) (h : length old ≡ key_size) (h' : length old' ≡ key_size) where
    -- In two buffers of `key_size_` bytes, whatever they held before, two numbers make the same
    -- key exactly when they agree modulo the capacity of the key's bytes, of which eight at most
    -- are used.
    pub generate_key-collide :
        (v w : ℕ)
        → (generate_key_from_int key_size v old ≡ generate_key_from_int key_size w old')
          ↔ (v % capacity ≡ w % capacity)
    generate_key-collide v w = (
      λ e.
          key_of-injective (v % capacity) (w % capacity) (mod-lt v some_room) (mod-lt w some_room) (
            sym (key_of-mod v)
            ∙ (sym (generate_key-eq-key_of key_size v old h)
                ∙ (e ∙ (generate_key-eq-key_of key_size w old' h' ∙ key_of-mod w)))),
      λ e.
          generate_key-eq-key_of key_size v old h
          ∙ (key_of-mod v
              ∙ (ap (key_of key_size) e
                  ∙ (sym (key_of-mod w) ∙ sym (generate_key-eq-key_of key_size w old' h')))),
    )

    -- In a sequential workload no two operations, of one thread or of two, use the same key, as
    -- long as the numbers of the threads stay in an `int` and fit the key's bytes, and the key
    -- buffers have `key_size_` bytes.
    pub seq_keys-distinct :
        (num tid tid' i i' : ℕ)
        → i < num
        → i' < num
        → tid * num + num ≤ 2 ^ 31
        → tid' * num + num ≤ 2 ^ 31
        → tid * num + num ≤ capacity
        → tid' * num + num ≤ capacity
        → generate_key_from_int key_size (seq_number num tid i) old
          ≡ generate_key_from_int key_size (seq_number num tid' i') old'
        → (tid ≡ tid') × (i ≡ i')
    seq_keys-distinct num tid tid' i i' hi hi' fits fits' room room' e =
        let n : seq_number num tid i ≡ tid * num + i = seq_number-eq num tid i (omega arith) in
        let n' : seq_number num tid' i' ≡ tid' * num + i' =
          seq_number-eq num tid' i' (omega arith) in
        block_unique num tid tid' i i' hi hi' (
          sym n
          ∙ (key_of-injective (seq_number num tid i) (seq_number num tid' i') (omega arith)
                (omega arith)
                (sym (generate_key-eq-key_of key_size (seq_number num tid i) old h)
                  ∙ (e ∙ generate_key-eq-key_of key_size (seq_number num tid' i') old' h'))
              ∙ n'))
