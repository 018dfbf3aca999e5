-- ===== src/Example/Program.antt =====
-- A C program as a function from a state to a result: what it has printed, and what lies outside
-- the process. A program that exits keeps both.
use mss_kv_lab.Base.{List, [], ◌∷◌, ◌++◌}
use mss_kv_lab.Base.Result.{Result, done, fault, Fault}

module _ (World Line : Type 0) where
  pub record Process : Type 0 where
    pub world : World
    pub printed : List Line

  abbrev pub Prog : Type 0 → Type 0
  Prog A = Process → Result A × Process

module _ {World Line : Type 0} where
  abbrev pub pure : {A : Type 0} → A → Prog World Line A
  pure a s = (done a, s)

  abbrev pub and_then :
      {A B : Type 0}
      → Result A × Process World Line
      → (A → Prog World Line B)
      → Result B × Process World Line
  and_then (done a, s) f = f a s
  and_then (fault e, s) f = (fault e, s)

  infixl 5 ◌>>=◌ ◌>>◌
  abbrev pub ◌>>=◌ :
      {A B : Type 0} → Prog World Line A → (A → Prog World Line B) → Prog World Line B
  m >>= f = λ s. and_then (m s) f

  abbrev pub ◌>>◌ :
      {B : Type 0} → Prog World Line (Unit {0}) → Prog World Line B → Prog World Line B
  m >> k = m >>= λ _. k

  -- `printf`
  abbrev pub print : Line → Prog World Line (Unit {0})
  print l s = (done tt, record s { printed = s.printed ++ (l ∷ []) })

  -- `exit(1)` and a failed `assert`
  abbrev pub leave : {A : Type 0} → Fault → Prog World Line A
  leave e s = (fault e, s)
