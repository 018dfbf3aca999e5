-- ===== src/Example/LinkedList/Laws.antt =====
-- The transaction of example/linked_list.c appends to the list, or leaves it alone.
use mss_kv_lab.Base.{
  ℕ, ◌+◌, ◌%◌, ◌^◌, ◌≡◌, ◌≢◌, refl, sym, ap, ◌∙◌, Bool, true, false, List, [], ◌∷◌, ◌++◌, Option,
  none, some, arith,
}
use mss_kv_lab.Example.Alloc.{Oid}
use mss_kv_lab.Example.LinkedList.Cmd.{Ran, Cmd, ◌>>◌}
use mss_kv_lab.Example.LinkedList.Append.{
  ListHead, ListElem, Transactions, get_head, znew, add, update_head, update_elem, link, append_at,
  append_body, ended, append,
}
use mss_kv_lab.Example.LinkedList.Documented
use mss_kv_lab.Example.LinkedList.Documented.{Agrees}
use mss_kv_lab.Example.LinkedList.Chain.{Item, IsList, IsList-Agrees}
use mss_kv_lab.Example.LinkedList.Safely.{
  AllRecoverable, Safely, followed-Safely, Safely_weaken, View, add-Safely, new-Safely, head-Safely,
}
use mss_kv_lab.Example.LinkedList.Link.{link-Safely, View-IsList, tail-apart}

abbrev set_val : ListElem → ListElem
set_val e = record e { val = 100 }

abbrev set_tail : Oid → ListHead → ListHead
set_tail new h = record h { tail = new }

abbrev count_up : ListHead → ListHead
count_up h = record h { num_elements = (h.num_elements + 1) % 2 ^ 32 }

abbrev pub All : {A : Type 0} → (A → Type 0) → List A → Type 0
All P [] = Unit
All P (x ∷ xs) = P x × All P xs

module _ {Pool : Type 0} (T : Transactions Pool) (doc : Documented.Documented T) (p : Pool)
    (root : Oid) where
  open doc use {used, covered, Recoverable}

  abbrev old_head : ListHead
  old_head = T.head_of p root

  abbrev old_last : ListElem
  old_last = T.elem_of p old_head.tail

  abbrev pub Appended : List Item → T.Tx → Type 0
  Appended xs t =
      (new : Oid) × (new ≢ 0)
      × (used p new ≡ false)
      × IsList T used (T.mapped t) root (xs ++ ((new, 100) ∷ []))

  znew-Safely :
      (r : Option Oid × T.Tx)
      → T.tx_znew (T.tx_begin p) ≡ r
      → used p root ≡ true
      → Safely T doc p
          (r.1 ∷ [], r.0, r.1)
          (λ new.
            View T doc p root old_head.tail new [] old_head (record { val = 0; next = 0 }) old_last)
  znew-Safely (o, t) e y =
      let (start, ok) = doc.begins p in
      let r' : Recoverable p t = rw (sym (ap (λ r. r.1) e)) (doc.znew_recoverable p _ ok) in
      let keeps : (j : Oid)
          → used p j ≡ true
          → (T.head_of (T.mapped t) j ≡ T.head_of p j)
            × (T.elem_of (T.mapped t) j ≡ T.elem_of p j) =
        λ j z.
          let (a, b) = doc.znew_keeps (T.tx_begin p) j (start.same_used j ∙ z) in
          (
            ap (λ r. T.head_of (T.mapped r.1) j) (sym e) ∙ (a ∙ start.same_head j z),
            ap (λ r. T.elem_of (T.mapped r.1) j) (sym e) ∙ (b ∙ start.same_elem j z),
          ) in
      fresh o e r' keeps
    where
      fresh :
          (o : Option Oid)
          → T.tx_znew (T.tx_begin p) ≡ (o, t)
          → Recoverable p t
          → ((j : Oid)
              → used p j ≡ true
              → (T.head_of (T.mapped t) j ≡ T.head_of p j)
                × (T.elem_of (T.mapped t) j ≡ T.elem_of p j))
          → Safely T doc p
              (t ∷ [], o, t)
              (λ new.
                View T doc p root old_head.tail new [] old_head
                  (record { val = 0; next = 0 })
                  old_last)
      fresh none e r' keeps = ((r', tt), r')
      fresh (some new) e r' keeps =
          let (ne, unused, all, zeroed, cov) = doc.znew_fresh _ t new e in
          let (start, ok) = doc.begins p in
          (
            (r', tt),
            r',
            record {
              root_used = y;
              new_real = ne;
              new_unused = sym (start.same_used new) ∙ unused;
              now_used = λ j. ground (arith, all j, start.same_used j);
              logged = λ j m. ground (arith, cov j, m);
              head_is = (keeps root y).0;
              new_is = zeroed;
              others = λ j z n. (keeps j z).1 ∙ ground (arith);
            },
          )

  -- The statements from a given one on.
  abbrev from_tail : Oid → Cmd T.Tx (Unit {0})
  from_tail new = update_head T root (set_tail new) >> update_head T root count_up

  abbrev from_link : Oid → Cmd T.Tx (Unit {0})
  from_link new = link T root old_head.tail new >> from_tail new

  abbrev from_add : Oid → Cmd T.Tx (Unit {0})
  from_add new = add T root >> from_link new

  append_at-Safely :
      (xs : List Item)
      → IsList T used p root xs
      → Safely T doc p (append_at T root old_head.tail (T.tx_begin p)) (λ _. Appended xs)
  unfolding append_at
  append_at-Safely xs l =
      followed-Safely T doc p (znew T (T.tx_begin p))
        (λ new. update_elem T new set_val >> from_add new) _ end (znew-Safely _ refl l.root_used)
        λ new t r v.
          followed-Safely T doc p (update_elem T new set_val t) (λ _. from_add new) _ end
            (new-Safely T doc p root old_head.tail new _ _ _ _ t r v set_val)
            λ _ t r v.
              followed-Safely T doc p (add T root t) (λ _. from_link new) _ end
                (add-Safely T doc p root old_head.tail new _ _ _ _ t r v root)
                λ _ t r v.
                  followed-Safely T doc p (link T root old_head.tail new t) (λ _. from_tail new) _
                    end (link-Safely T doc p root new t r v (tail-apart T doc p root xs l))
                    λ _ t r linkage.
                      let (os, m, v) = linkage in
                      followed-Safely T doc p (update_head T root (set_tail new) t)
                        (λ _. update_head T root count_up) _ end
                        (head-Safely T doc p root old_head.tail new os _ _ _ t r v (set_tail new) m)
                        λ _ t r v.
                          Safely_weaken T doc p (update_head T root count_up t) _ end
                            (head-Safely T doc p root old_head.tail new os _ _ _ t r v count_up m)
                            λ _ t v. (
                              new,
                              v.new_real,
                              v.new_unused,
                              View-IsList T doc p root new t os xs l v,
                            )
    where
      end : Unit {0} → T.Tx → Type 0
      end _ = Appended xs

  append_body-Safely :
      (xs : List Item)
      → IsList T used p root xs
      → Safely T doc p (append_body T root (T.tx_begin p)) (λ _. Appended xs)
  unfolding append_body
  append_body-Safely xs l =
      let (start, ok) = doc.begins p in
      followed-Safely T doc p (get_head T root (T.tx_begin p)) (λ h. append_at T root h.tail)
        (λ h t. (h ≡ old_head) × (t ≡ T.tx_begin p)) _
        (tt, ok, (start.same_head root l.root_used, refl))
        λ h t r (e, e'). rw (e, e') (append_at-Safely xs l)

  -- How the transaction ends.
  abbrev pub Outcome : List Item → List T.Tx × Bool × Pool → Type 0
  Outcome xs (states, true, q) =
      (new : Oid) × (new ≢ 0)
      × (used p new ≡ false)
      × IsList T used q root (xs ++ ((new, 100) ∷ []))
  Outcome xs (states, false, q) = Agrees T used p q

  ended-Outcome :
      (xs : List Item) (r : Ran T.Tx (Unit {0}))
      → Safely T doc p r (λ _. Appended xs)
      → Outcome xs (ended T r) × AllRecoverable T doc p (ended T r).0
  unfolding ended
  ended-Outcome xs (ts, none, t) (all, r) = (doc.aborts p t r, all)
  ended-Outcome xs (ts, some u, t) (all, r, (new, ne, fresh, l)) =
      ((new, ne, fresh, IsList-Agrees T used _ _ root _ (doc.commits t) l), all)

  -- On a pool that has a list with the items xs, the transaction either commits, and the pool then
  -- has the list of xs and one more item, a fresh object with the value 100; or it aborts, and then
  -- the pool has the same objects with the same contents as before.
  pub append_lem : (xs : List Item) → IsList T used p root xs → Outcome xs (append T root p)
  unfolding append
  append_lem xs l = (ended-Outcome xs _ (append_body-Safely xs l)).0

  All-restored :
      (xs : List Item) (k : ℕ) (ts : List T.Tx)
      → IsList T used p root xs
      → AllRecoverable T doc p ts
      → All (λ t. IsList T used (T.after_failure k t) root xs) ts
  All-restored xs k [] l a = tt
  All-restored xs k (t ∷ ts) l (r, a) =
      (IsList-Agrees T used p _ root xs (doc.fails p t k r) l, All-restored xs k ts l a)

  -- On a pool that has a list with the items xs: when the power fails in any state from the begin
  -- to the end of the transaction, the pool that is opened next has the list xs, whichever of the
  -- writes had reached the medium.
  pub append-power_failure :
      (xs : List Item) (k : ℕ)
      → IsList T used p root xs
      → All (λ t. IsList T used (T.after_failure k t) root xs) (append T root p).0
  unfolding append
  append-power_failure xs k l =
      let (start, ok) = doc.begins p in
      (
        IsList-Agrees T used p _ root xs (doc.fails p _ k ok) l,
        All-restored xs k _ l (ended-Outcome xs _ (append_body-Safely xs l)).1,
      )
