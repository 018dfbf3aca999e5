-- ===== src/Example/LinkedList/Cmd.antt =====
-- The commands of the transaction in example/linked_list.c: state passing that can abort, and that
-- keeps every state it has gone through.
use mss_kv_lab.Base.{List, ◌++◌, Option, none, some}

-- A run inside a transaction: the states after its statements, its value, `none` when it has
-- aborted, and its last state.
abbrev pub Ran : Type 0 → Type 0 → Type 0
Ran Tx A = List Tx × Option A × Tx

abbrev pub Cmd : Type 0 → Type 0 → Type 0
Cmd Tx A = Tx → Ran Tx A

module _ {Tx : Type 0} where
  abbrev pub followed : {A B : Type 0} → Ran Tx A → (A → Cmd Tx B) → Ran Tx B
  followed (states, none, t) f = (states, none, t)
  followed (states, some a, t) f = let (more, r, t') = f a t in (states ++ more, r, t')

  infixl 5 ◌>>=◌ ◌>>◌
  abbrev pub ◌>>=◌ : {A B : Type 0} → Cmd Tx A → (A → Cmd Tx B) → Cmd Tx B
  m >>= f = λ t. followed (m t) f

  abbrev pub ◌>>◌ : {B : Type 0} → Cmd Tx (Unit {0}) → Cmd Tx B → Cmd Tx B
  m >> k = m >>= λ _. k
