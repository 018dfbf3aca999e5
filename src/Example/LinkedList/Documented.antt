-- ===== src/Example/LinkedList/Documented.antt =====
-- What libpmemobj documents of the functions that example/linked_list.c calls.
use mss_kv_lab.Base.{ℕ, ◌≡◌, ◌≢◌, Bool, true, false, ◌||◌, some, ◌==◌}
use mss_kv_lab.Example.Alloc.{Oid}
use mss_kv_lab.Example.LinkedList.Append.{ListHead, ListElem, Transactions}

module _ {Pool : Type 0} (T : Transactions Pool) (used : Pool → Oid → Bool) where
  -- `q` has the objects of `p`, with the same contents.
  pub record Agrees (p q : Pool) : Type 0 where
    pub same_used : (o : Oid) → used q o ≡ used p o
    pub same_head : (o : Oid) → used p o ≡ true → T.head_of q o ≡ T.head_of p o
    pub same_elem : (o : Oid) → used p o ≡ true → T.elem_of q o ≡ T.elem_of p o

-- `used p o`: the object is allocated. `covered t o`: the undo log of the transaction has the
-- object, or the transaction has allocated it. `Recoverable p t`: what the transaction has written
-- since it began at p was covered.
pub record Documented {Pool : Type 0} (T : Transactions Pool) : Type 1 where
  pub used : Pool → Oid → Bool
  pub covered : T.Tx → Oid → Bool
  pub Recoverable : Pool → T.Tx → Type 0
  pub begins : (p : Pool) → Agrees T used p (T.mapped (T.tx_begin p)) × Recoverable p (T.tx_begin p)
  pub commits : (t : T.Tx) → Agrees T used (T.mapped t) (T.tx_commit t)
  pub aborts : (p : Pool) (t : T.Tx) → Recoverable p t → Agrees T used p (T.tx_abort t)
  pub fails :
      (p : Pool) (t : T.Tx) (k : ℕ) → Recoverable p t → Agrees T used p (T.after_failure k t)
  pub locks : (p : Pool) (o : Oid) → Agrees T used p (T.pmemobj_mutex_lock p o)
  pub unlocks : (p : Pool) (o : Oid) → Agrees T used p (T.pmemobj_mutex_unlock p o)
  pub znew_recoverable : (p : Pool) (t : T.Tx) → Recoverable p t → Recoverable p (T.tx_znew t).1
  pub znew_fresh :
      (t t' : T.Tx) (o : Oid)
      → T.tx_znew t ≡ (some o, t')
      → (o ≢ 0)
        × (used (T.mapped t) o ≡ false)
        × ((j : Oid) → used (T.mapped t') j ≡ (o == j || used (T.mapped t) j))
        × (T.elem_of (T.mapped t') o ≡ record { val = 0; next = 0 })
        × ((j : Oid) → covered t' j ≡ (o == j || covered t j))
  pub znew_keeps :
      (t : T.Tx) (j : Oid)
      → used (T.mapped t) j ≡ true
      → let t' = (T.tx_znew t).1 in
        (T.head_of (T.mapped t') j ≡ T.head_of (T.mapped t) j)
        × (T.elem_of (T.mapped t') j ≡ T.elem_of (T.mapped t) j)
  pub add_recoverable :
      (p : Pool) (o : Oid) (t : T.Tx) → Recoverable p t → Recoverable p (T.tx_add o t).1
  pub add_keeps : (o : Oid) (t : T.Tx) → Agrees T used (T.mapped t) (T.mapped (T.tx_add o t).1)
  pub add_covers :
      (o : Oid) (t : T.Tx) (j : Oid)
      → (T.tx_add o t).0 ≡ true
      → covered (T.tx_add o t).1 j ≡ (o == j || covered t j)
  pub head_recoverable :
      (p : Pool) (o : Oid) (h : ListHead) (t : T.Tx)
      → covered t o ≡ true
      → Recoverable p t
      → Recoverable p (T.set_head o h t)
  pub head_covered :
      (o : Oid) (h : ListHead) (t : T.Tx) (j : Oid) → covered (T.set_head o h t) j ≡ covered t j
  pub head_used :
      (o : Oid) (h : ListHead) (t : T.Tx) (j : Oid)
      → used (T.mapped (T.set_head o h t)) j ≡ used (T.mapped t) j
  pub head_written :
      (o : Oid) (h : ListHead) (t : T.Tx) → T.head_of (T.mapped (T.set_head o h t)) o ≡ h
  pub head_others :
      (o : Oid) (h : ListHead) (t : T.Tx) (j : Oid)
      → o ≢ j
      → T.elem_of (T.mapped (T.set_head o h t)) j ≡ T.elem_of (T.mapped t) j
  pub elem_recoverable :
      (p : Pool) (o : Oid) (e : ListElem) (t : T.Tx)
      → covered t o ≡ true
      → Recoverable p t
      → Recoverable p (T.set_elem o e t)
  pub elem_covered :
      (o : Oid) (e : ListElem) (t : T.Tx) (j : Oid) → covered (T.set_elem o e t) j ≡ covered t j
  pub elem_used :
      (o : Oid) (e : ListElem) (t : T.Tx) (j : Oid)
      → used (T.mapped (T.set_elem o e t)) j ≡ used (T.mapped t) j
  pub elem_written :
      (o : Oid) (e : ListElem) (t : T.Tx) → T.elem_of (T.mapped (T.set_elem o e t)) o ≡ e
  pub elem_others :
      (o : Oid) (e : ListElem) (t : T.Tx) (j : Oid)
      → o ≢ j
      → (T.elem_of (T.mapped (T.set_elem o e t)) j ≡ T.elem_of (T.mapped t) j)
        × (T.head_of (T.mapped (T.set_elem o e t)) j ≡ T.head_of (T.mapped t) j)
