-- ===== src/Example/LinkedList/Safely.antt =====
-- Runs of a transaction that can be rolled back at every point, and what each command does to the
-- objects of the list.
use mss_kv_lab.Base.{
  ℕ, ◌≡◌, ◌≢◌, sym, ap, ◌∙◌, Bool, true, false, ◌||◌, inl, inr, List, [], ◌∷◌, ◌++◌, none, some,
  arith, ◌==◌, if◌then◌else◌, Bool-cases,
}
use mss_kv_lab.Example.Alloc.{Oid}
use mss_kv_lab.Example.LinkedList.Cmd.{Ran, Cmd, followed}
use mss_kv_lab.Example.LinkedList.Append.{
  ListHead, ListElem, Transactions, add, update_head, update_elem,
}
use mss_kv_lab.Example.LinkedList.Documented
use mss_kv_lab.Example.LinkedList.Documented.{Agrees}

abbrev pub mem : List Oid → Oid → Bool
mem [] j = false
mem (o ∷ os) j = o == j || mem os j

module _ {Pool : Type 0} (T : Transactions Pool) (doc : Documented.Documented T) (p : Pool) where
  open doc use {used, covered, Recoverable}

  abbrev pub AllRecoverable : List T.Tx → Type 0
  AllRecoverable [] = Unit
  AllRecoverable (t ∷ ts) = Recoverable p t × AllRecoverable ts

  AllRecoverable-append :
      (ts us : List T.Tx) → AllRecoverable ts → AllRecoverable us → AllRecoverable (ts ++ us)
  AllRecoverable-append [] us a b = b
  AllRecoverable-append (t ∷ ts) us (r, a) b = (r, AllRecoverable-append ts us a b)

  -- Every state can be rolled back; without an abort, the value and the last state satisfy Q.
  abbrev pub Safely : {A : Type 0} → Ran T.Tx A → (A → T.Tx → Type 0) → Type 0
  Safely (states, none, t) Q = AllRecoverable states × Recoverable p t
  Safely (states, some a, t) Q = AllRecoverable states × Recoverable p t × Q a t

  safely_after :
      {B : Type 0} (ts : List T.Tx) (r : Ran T.Tx B) (Q : B → T.Tx → Type 0)
      → AllRecoverable ts
      → Safely r Q
      → Safely (ts ++ r.0, r.1, r.2) Q
  safely_after ts (us, none, t) Q a (b, r) = (AllRecoverable-append ts us a b, r)
  safely_after ts (us, some x, t) Q a (b, r, q) = (AllRecoverable-append ts us a b, r, q)

  pub followed-Safely :
      {A B : Type 0} (r : Ran T.Tx A) (f : A → Cmd T.Tx B) (Q : A → T.Tx → Type 0)
      (R : B → T.Tx → Type 0)
      → Safely r Q
      → ((a : A) (t : T.Tx) → Recoverable p t → Q a t → Safely (f a t) R)
      → Safely (followed r f) R
  followed-Safely (ts, none, t) f Q R s k = s
  followed-Safely (ts, some a, t) f Q R (all, r, q) k = safely_after ts (f a t) R all (k a t r q)

  pub Safely_weaken :
      {A : Type 0} (r : Ran T.Tx A) (Q R : A → T.Tx → Type 0)
      → Safely r Q
      → ((a : A) (t : T.Tx) → Q a t → R a t)
      → Safely r R
  Safely_weaken (ts, none, t) Q R s k = s
  Safely_weaken (ts, some a, t) Q R (all, r, q) k = (all, r, k a t q)

  module _ (root tail new : ℕ) where
    -- The head is h, the new object is e, the object at `tail` is u, and every other object is as
    -- it was in p. The undo log has `os`, and the new object need not be in it.
    pub record View (os : List Oid) (h : ListHead) (e u : ListElem) (t : T.Tx) : Type 0 where
      pub root_used : used p root ≡ true
      pub new_real : new ≢ 0
      pub new_unused : used p new ≡ false
      pub now_used : (j : Oid) → used (T.mapped t) j ≡ (new == j || used p j)
      pub logged : (j : Oid) → (new == j || mem os j) ≡ true → covered t j ≡ true
      pub head_is : T.head_of (T.mapped t) root ≡ h
      pub new_is : T.elem_of (T.mapped t) new ≡ e
      pub others :
          (j : Oid)
          → used p j ≡ true
          → root ≢ j
          → T.elem_of (T.mapped t) j ≡ (if tail == j then u else T.elem_of p j)

    differs : (j : Oid) → used p j ≡ true → used p new ≡ false → new ≢ j
    differs j y n k = ground (arith, n, y, ap (used p) k)

    module _ (os : List Oid) (h : ListHead) (x u : ListElem) (t : T.Tx) (r : Recoverable p t)
        (v : View os h x u t) where
      pub add-Safely : (o : Oid) → Safely (add T o t) (λ _. View (o ∷ os) h x u)
      add-Safely o =
          let a = doc.add_keeps o t in
          let r' = doc.add_recoverable p o t r in
          elim (Bool-cases (T.tx_add o t).0) [
            | inl e ↦ rw e (
              (r', tt),
              r',
              record {
                root_used = v.root_used;
                new_real = v.new_real;
                new_unused = v.new_unused;
                now_used = λ j. a.same_used j ∙ v.now_used j;
                logged = λ j m. ground (arith, doc.add_covers o t j e, v.logged j, m);
                head_is =
                    a.same_head root (ground (arith, v.now_used root, v.root_used)) ∙ v.head_is;
                new_is = a.same_elem new (ground (arith, v.now_used new)) ∙ v.new_is;
                others = λ j used n.
                    a.same_elem j (ground (arith, v.now_used j, used)) ∙ v.others j used n;
              },
            )
            | inr e ↦ rw e ((r', tt), r')
          ]

      pub new-Safely :
          (f : ListElem → ListElem) → Safely (update_elem T new f t) (λ _. View os h (f x) u)
      new-Safely f =
          let e' = f (T.elem_of (T.mapped t) new) in
          let r' = doc.elem_recoverable p new e' t (v.logged new (ground arith)) r in
          (
            (r', tt),
            r',
            record {
              root_used = v.root_used;
              new_real = v.new_real;
              new_unused = v.new_unused;
              now_used = λ j. doc.elem_used new e' t j ∙ v.now_used j;
              logged = λ j m. doc.elem_covered new e' t j ∙ v.logged j m;
              head_is =
                  (doc.elem_others new e' t root (differs root v.root_used v.new_unused)).1
                  ∙ v.head_is;
              new_is = doc.elem_written new e' t ∙ ap f v.new_is;
              others = λ j y n.
                  (doc.elem_others new e' t j (differs j y v.new_unused)).0 ∙ v.others j y n;
            },
          )

      pub tail-Safely :
          (f : ListElem → ListElem)
          → used p tail ≡ true
          → root ≢ tail
          → mem os tail ≡ true
          → Safely (update_elem T tail f t) (λ _. View os h x (f u))
      tail-Safely f y n m =
          let e' = f (T.elem_of (T.mapped t) tail) in
          let r' = doc.elem_recoverable p tail e' t (v.logged tail (ground (arith, m))) r in
          let is_u : T.elem_of (T.mapped t) tail ≡ u = ground (arith, v.others tail y n) in
          (
            (r', tt),
            r',
            record {
              root_used = v.root_used;
              new_real = v.new_real;
              new_unused = v.new_unused;
              now_used = λ j. doc.elem_used tail e' t j ∙ v.now_used j;
              logged = λ j m. doc.elem_covered tail e' t j ∙ v.logged j m;
              head_is = (doc.elem_others tail e' t root (λ h. n (sym h))).1 ∙ v.head_is;
              new_is =
                  (doc.elem_others tail e' t new (λ k. differs tail y v.new_unused (sym k))).0
                  ∙ v.new_is;
              others = λ j z k. ground (
                arith,
                v.others j z k,
                doc.elem_others tail e' t j,
                doc.elem_written tail e' t,
                ap f is_u,
              );
            },
          )

      pub head-Safely :
          (f : ListHead → ListHead)
          → mem os root ≡ true
          → Safely (update_head T root f t) (λ _. View os (f h) x u)
      head-Safely f m =
          let h' = f (T.head_of (T.mapped t) root) in
          let r' = doc.head_recoverable p root h' t (v.logged root (ground (arith, m))) r in
          (
            (r', tt),
            r',
            record {
              root_used = v.root_used;
              new_real = v.new_real;
              new_unused = v.new_unused;
              now_used = λ j. doc.head_used root h' t j ∙ v.now_used j;
              logged = λ j m. doc.head_covered root h' t j ∙ v.logged j m;
              head_is = doc.head_written root h' t ∙ ap f v.head_is;
              new_is =
                  doc.head_others root h' t new (λ k. differs root v.root_used v.new_unused (sym k))
                  ∙ v.new_is;
              others = λ j y n. doc.head_others root h' t j n ∙ v.others j y n;
            },
          )
