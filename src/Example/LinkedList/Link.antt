-- ===== src/Example/LinkedList/Link.antt =====
-- How the transaction of example/linked_list.c links the new object to the list.
use mss_kv_lab.Base.{
  ◌+◌, ◌%◌, ◌^◌, ◌≡◌, ◌≢◌, refl, sym, ap, ◌∙◌, true, false, inl, inr, List, [], ◌∷◌, ◌++◌,
  length-append, arith, ◌==◌, if◌then◌else◌, Bool-cases,
}
use mss_kv_lab.Example.Alloc.{Oid}
use mss_kv_lab.Example.LinkedList.Append.{
  ListHead, ListElem, Transactions, add, update_head, update_elem, link,
}
use mss_kv_lab.Example.LinkedList.Documented
use mss_kv_lab.Example.LinkedList.Documented.{Agrees}
use mss_kv_lab.Example.LinkedList.Chain.{
  Item, has, last_of, Chain, Linked, IsList, Chain-append, has-append, has-last, last-append,
}
use mss_kv_lab.Example.LinkedList.Safely.{
  mem, Safely, followed-Safely, Safely_weaken, View, add-Safely, tail-Safely, head-Safely,
}

-- `h` with the new object as its first element, when it has none.
abbrev pub with_first : Oid → ListHead → ListHead
with_first new h = if h.tail == 0 then record h { head = new } else h

-- The last element linked to the new object, when there is one.
abbrev pub with_next : Oid → Oid → ListElem → ListElem
with_next tail new u = if tail == 0 then u else record u { next = new }

abbrev pub finished : Oid → ListHead → ListHead
finished new h =
    let h' = with_first new h in
    record h' { tail = new; num_elements = (h'.num_elements + 1) % 2 ^ 32 }

abbrev pub new_elem : ListElem
new_elem = record { val = 100; next = 0 }

module _ {Pool : Type 0} (T : Transactions Pool) (doc : Documented.Documented T) (p : Pool)
    (root : Oid) where
  open doc use {used, covered, Recoverable}

  abbrev old_head : ListHead
  old_head = T.head_of p root

  abbrev old_last : ListElem
  old_last = T.elem_of p old_head.tail

  pub last-used :
      (o : Oid) (x : Item) (xs : List Item)
      → Chain T used p o (x ∷ xs)
      → (last_of (x ∷ xs) ≢ 0) × (used p (last_of (x ∷ xs)) ≡ true)
  last-used o x [] (at, ne, u, v, unique, rest) = (ne, u)
  last-used o x (y ∷ xs) (at, ne, u, v, unique, rest) = last-used (T.elem_of p x.0).next y xs rest

  -- After the `if`: the undo log has at least the root object.
  abbrev pub Linkage : Oid → ListHead → ListElem → T.Tx → Type 0
  Linkage new h u t =
      (os : List Oid) × (mem os root ≡ true) × View T doc p root old_head.tail new os h new_elem u t

  pub link-Safely :
      (new : Oid) (t : T.Tx)
      → Recoverable p t
      → View T doc p root old_head.tail new (root ∷ []) old_head new_elem old_last t
      → (old_head.tail ≢ 0 → (used p old_head.tail ≡ true) × (root ≢ old_head.tail))
      → Safely T doc p
          (link T root old_head.tail new t)
          (λ _. Linkage new (with_first new old_head) (with_next old_head.tail new old_last))
  unfolding link
  link-Safely new t r v apart = elim (Bool-cases (old_head.tail == 0)) [
    | inl e ↦ rw e (
        Safely_weaken T doc p (update_head T root (λ h. record h { head = new }) t) _
          (λ _. Linkage new (record old_head { head = new }) old_last)
          (head-Safely T doc p root old_head.tail new _ _ _ _ t r v (λ h. record h { head = new })
            (ground arith))
          (λ _ t v. (root ∷ [], ground arith, v)))
    | inr e ↦
        let (y, n) = apart (ground (arith, e)) in
        rw e (
          followed-Safely T doc p (add T old_head.tail t) _ _ _
            (add-Safely T doc p root old_head.tail new _ _ _ _ t r v old_head.tail)
            (λ _ t r v.
              Safely_weaken T doc p (update_elem T old_head.tail (λ e. record e { next = new }) t) _
                (λ _. Linkage new old_head (record old_last { next = new }))
                (tail-Safely T doc p root old_head.tail new _ _ _ _ t r v
                  (λ e. record e { next = new }) y n (ground arith))
                (λ _ t v. (old_head.tail ∷ root ∷ [], ground arith, v))))
  ]

  pub View-IsList :
      (new : Oid) (t : T.Tx) (os : List Oid) (xs : List Item)
      → IsList T used p root xs
      → View T doc p root old_head.tail new os
          (finished new old_head)
          new_elem
          (with_next old_head.tail new old_last)
          t
      → IsList T used (T.mapped t) root (xs ++ ((new, 100) ∷ []))
  View-IsList new t os [] l v =
      let first : T.head_of (T.mapped t) root
          ≡ record { num_elements = 1; head = new; tail = new } =
        v.head_is ∙ ground (arith, l.at_tail, l.counted) in
      record {
        root_used = ground (arith, v.now_used root, v.root_used);
        root_apart = ground (arith, v.new_unused, v.root_used);
        items = (
          ap (λ h. h.head) first,
          v.new_real,
          ground (arith, v.now_used new),
          ap (λ e. e.val) v.new_is,
          refl,
          ap (λ e. e.next) v.new_is,
        );
        at_tail = ap (λ h. h.tail) first;
        counted = ap (λ h. h.num_elements) first;
      }
  View-IsList new t os (x ∷ xs) l v =
      let (real, y) = last-used old_head.head x xs l.items in
      let isnt_zero : (old_head.tail == 0) ≡ false = ground (arith, l.at_tail, real) in
      let now : T.head_of (T.mapped t) root
          ≡ record old_head { tail = new; num_elements = (old_head.num_elements + 1) % 2 ^ 32 } =
        v.head_is ∙ rw isnt_zero refl in
      let linked : Linked T used p (T.mapped t) root (last_of (x ∷ xs)) new 100 = record {
        new_used = v.now_used;
        new_unused = v.new_unused;
        new_real = v.new_real;
        new_elem = v.new_is;
        others = λ j z k. v.others j z k ∙ ground (arith, isnt_zero, l.at_tail);
      } in
      record {
        root_used = ground (arith, v.now_used root, v.root_used);
        root_apart =
            has-append (x ∷ xs) (new, 100) root
            ∙ ground (arith, l.root_apart, v.new_unused, v.root_used);
        items = rw now (
            Chain-append T used p (T.mapped t) root old_head.head new 100 x xs linked l.root_apart
              l.items);
        at_tail = ap (λ h. h.tail) now ∙ sym (last-append (x ∷ xs) (new, 100));
        counted =
            ap (λ h. h.num_elements) now
            ∙ omega (arith, l.counted, length-append (x ∷ xs) ((new, 100) ∷ []));
      }

  pub tail-apart :
      (xs : List Item)
      → IsList T used p root xs
      → old_head.tail ≢ 0
      → (used p old_head.tail ≡ true) × (root ≢ old_head.tail)
  tail-apart [] l n = ground (arith, l.at_tail, n)
  tail-apart (x ∷ xs) l n =
      let (real, y) = last-used old_head.head x xs l.items in
      (
        ap (used p) l.at_tail ∙ y,
        λ k. ground (arith, ap (has (x ∷ xs)) (k ∙ l.at_tail), has-last x xs, l.root_apart),
      )
