-- ===== src/Example/LinkedList/Append.antt =====
-- The transaction of example/linked_list.c, and the loop over the list.
use mss_kv_lab.Base.{
  ℕ, zero, suc, ◌+◌, ◌%◌, ◌^◌, Bool, true, false, Option, none, some, List, [], ◌∷◌, ◌==◌,
  if◌then◌else◌,
}
use mss_kv_lab.Example.Alloc.{Oid}
use mss_kv_lab.Example.LinkedList.Cmd.{Ran, Cmd, ◌>>=◌, ◌>>◌}

-- `struct list_head`, without its lock. `num_elements` is the bit pattern of an int.
pub record ListHead : Type 0 where
  pub num_elements : ℕ
  pub head : Oid
  pub tail : Oid

-- `struct list_elem`
pub record ListElem : Type 0 where
  pub val : ℕ
  pub next : Oid

-- The functions of libpmemobj that the program calls, and its reads and writes of the mapped
-- memory, through `head_of` and `elem_of`. `Tx` is the state during a transaction. `TX_ZNEW` and
-- `TX_ADD` abort the transaction when they fail. `after_failure k t` is the pool that a later
-- `pmemobj_open` finds when the power fails in the state t; k stands for which of the writes had
-- reached the medium by then.
pub record Transactions (Pool : Type 0) : Type 1 where
  pub Tx : Type 0
  pub head_of : Pool → Oid → ListHead
  pub elem_of : Pool → Oid → ListElem
  pub mapped : Tx → Pool
  pub pmemobj_root : Pool → ℕ → Oid × Pool
  pub pmemobj_mutex_lock : Pool → Oid → Pool
  pub pmemobj_mutex_unlock : Pool → Oid → Pool
  pub tx_begin : Pool → Tx
  pub tx_commit : Tx → Pool
  pub tx_abort : Tx → Pool
  pub tx_znew : Tx → Option Oid × Tx
  pub tx_add : Oid → Tx → Bool × Tx
  pub set_head : Oid → ListHead → Tx → Tx
  pub set_elem : Oid → ListElem → Tx → Tx
  pub after_failure : ℕ → Tx → Pool

module _ {Pool : Type 0} (T : Transactions Pool) where
  -- Reading leaves the state as it is.
  abbrev pub get_head : Oid → Cmd T.Tx ListHead
  get_head o t = ([], some (T.head_of (T.mapped t) o), t)

  abbrev pub znew : Cmd T.Tx Oid
  znew t = let (r, t') = T.tx_znew t in (t' ∷ [], r, t')

  abbrev pub add : Oid → Cmd T.Tx (Unit {0})
  add o t = let (ok, t') = T.tx_add o t in (t' ∷ [], if ok then some tt else none, t')

  abbrev pub update_head : Oid → (ListHead → ListHead) → Cmd T.Tx (Unit {0})
  update_head o f t =
      let t' = T.set_head o (f (T.head_of (T.mapped t) o)) t in (t' ∷ [], some tt, t')

  abbrev pub update_elem : Oid → (ListElem → ListElem) → Cmd T.Tx (Unit {0})
  update_elem o f t =
      let t' = T.set_elem o (f (T.elem_of (T.mapped t) o)) t in (t' ∷ [], some tt, t')

  -- `if (!TOID_IS_NULL(tail)) { … } else { … }`
  unfoldable pub link : Oid → Oid → Oid → Cmd T.Tx (Unit {0})
  link root tail node =
      if tail == 0
      then update_head root (λ h. record h { head = node })
      else add tail >> update_elem tail (λ e. record e { next = node })

  -- The statements of the transaction, after the first, which reads the tail. The value is 100.
  unfoldable pub append_at : Oid → Oid → Cmd T.Tx (Unit {0})
  append_at root tail = do
    node ← znew
    update_elem node (λ e. record e { val = 100 })
    add root
    link root tail node
    update_head root (λ h. record h { tail = node })
    update_head root (λ h. record h { num_elements = (h.num_elements + 1) % 2 ^ 32 })

  unfoldable pub append_body : Oid → Cmd T.Tx (Unit {0})
  append_body root = do h ← get_head root; append_at root h.tail

  -- The transaction: its states, whether it has committed, and the pool afterwards.
  unfoldable pub ended : Ran T.Tx (Unit {0}) → List T.Tx × Bool × Pool
  ended (states, none, t) = (states, false, T.tx_abort t)
  ended (states, some _, t) = (states, true, T.tx_commit t)

  unfoldable pub append : Oid → Pool → List T.Tx × Bool × Pool
  unfolding append_body ended
  append root pop =
      let start = T.tx_begin pop in
      let (states, committed, pop') = ended (append_body root start) in
      (start ∷ states, committed, pop')

  -- The values that the loop prints, `none` when the fuel is used up.
  unfoldable pub scan : ℕ → Pool → Oid → Option (List ℕ)
  scan fuel pop zero = some []
  scan zero pop (suc o) = none
  scan (suc fuel) pop (suc o) =
      let e = T.elem_of pop (suc o) in
      elim (scan fuel pop e.next) [ none ↦ none | some vals ↦ some (e.val ∷ vals) ]
