-- ===== src/Base/Result.antt =====
-- Ways to leave a C++ function other than by `return`, as values.
use mathlib.Core.Path.{◌≡◌, refl}
use Prim.Native.Nat.{ℕ}

pub data Fault : Type 0 where
  assert_failed : Fault  -- `assert` aborts the process
  runtime_error : Fault  -- `throw std::runtime_error`
  exited : ℕ → Fault  -- `exit(code)`
  undefined : Fault  -- C and C++ leave open what happens
  unfinished : Fault  -- still running when the fuel of a loop is used up

pub data Result {ℓ} (A : Type ℓ) : Type ℓ where
  done : A → Result A
  fault : Fault → Result A

infixl 5 ◌>>=◌
abbrev pub ◌>>=◌ {ℓ κ} : {A : Type ℓ} {B : Type κ} → Result A → (A → Result B) → Result B
done a >>= f = f a
fault e >>= f = fault e

-- What a successful bind went through.
pub >>=-eq-ok {ℓ κ} :
    {A : Type ℓ} {B : Type κ} (m : Result A) (f : A → Result B) {b : B}
    → (m >>= f) ≡ done b
    → (a : A) × (m ≡ done a) × (f a ≡ done b)
>>=-eq-ok (done a) f h = (a, refl, h)
>>=-eq-ok (fault e) f h = cc
