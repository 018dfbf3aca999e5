-- ===== src/Example/LinkedList/Chain.antt =====
-- The list in a pool: its elements with their values, from the first to the last.
use mss_kv_lab.Base.{
  ℕ, zero, suc, ◌%◌, ◌^◌, ◌<◌, ◌≡◌, ◌≢◌, refl, ap, ◌∙◌, Bool, true, false, ◌||◌, List, [], ◌∷◌,
  ◌++◌, some, length, arith, ◌==◌, if◌then◌else◌,
}
use mss_kv_lab.Example.Alloc.{Oid}
use mss_kv_lab.Example.LinkedList.Append.{Transactions, scan}
use mss_kv_lab.Example.LinkedList.Documented.{Agrees}

abbrev pub Item : Type 0
Item = Oid × ℕ

abbrev pub has : List Item → Oid → Bool
has [] o = false
has (x ∷ xs) o = x.0 == o || has xs o

abbrev pub last_of : List Item → Oid
last_of [] = 0
last_of (x ∷ []) = x.0
last_of (x ∷ y ∷ xs) = last_of (y ∷ xs)

abbrev pub vals_of : List Item → List ℕ
vals_of [] = []
vals_of (x ∷ xs) = x.1 ∷ vals_of xs

pub has-append :
    (xs : List Item) (x : Item) (o : Oid) → has (xs ++ (x ∷ [])) o ≡ (has xs o || x.0 == o)
has-append [] x o = ground arith
has-append (y ∷ xs) x o = ground (arith, has-append xs x o)

pub last-append : (xs : List Item) (x : Item) → last_of (xs ++ (x ∷ [])) ≡ x.0
last-append [] x = refl
last-append (y ∷ []) x = refl
last-append (y ∷ z ∷ xs) x = last-append (z ∷ xs) x

pub has-last : (x : Item) (xs : List Item) → has (x ∷ xs) (last_of (x ∷ xs)) ≡ true
has-last x [] = ground arith
has-last x (y ∷ xs) = ground (arith, has-last y xs)

module _ {Pool : Type 0} (T : Transactions Pool) (used : Pool → Oid → Bool) where
  -- The elements from o on: the object, allocated and met once, its value, and the rest.
  abbrev pub Chain : Pool → Oid → List Item → Type 0
  Chain p o [] = o ≡ 0
  Chain p o (x ∷ xs) =
      (o ≡ x.0)
      × (x.0 ≢ 0)
      × (used p x.0 ≡ true)
      × ((T.elem_of p x.0).val ≡ x.1)
      × (has xs x.0 ≡ false)
      × Chain p (T.elem_of p x.0).next xs

  pub record IsList (p : Pool) (root : Oid) (xs : List Item) : Type 0 where
    pub root_used : used p root ≡ true
    pub root_apart : has xs root ≡ false
    pub items : Chain p (T.head_of p root).head xs
    pub at_tail : (T.head_of p root).tail ≡ last_of xs
    pub counted : (T.head_of p root).num_elements ≡ length xs % 2 ^ 32

  pub Chain-Agrees :
      (p q : Pool) (o : Oid) (xs : List Item) → Agrees T used p q → Chain p o xs → Chain q o xs
  Chain-Agrees p q o [] a c = c
  Chain-Agrees p q o (x ∷ xs) a (at, ne, u, v, unique, rest) =
      let same = a.same_elem x.0 u in
      (
        at,
        ne,
        a.same_used x.0 ∙ u,
        ap (λ e. e.val) same ∙ v,
        unique,
        Chain-Agrees p q (T.elem_of q x.0).next xs a (rw same rest),
      )

  pub IsList-Agrees :
      (p q : Pool) (root : Oid) (xs : List Item)
      → Agrees T used p q
      → IsList p root xs
      → IsList q root xs
  IsList-Agrees p q root xs a l =
      let same = a.same_head root l.root_used in
      record {
        root_used = a.same_used root ∙ l.root_used;
        root_apart = l.root_apart;
        items = rw same (Chain-Agrees p q _ xs a l.items);
        at_tail = ap (λ h. h.tail) same ∙ l.at_tail;
        counted = ap (λ h. h.num_elements) same ∙ l.counted;
      }

  -- The scan of a list prints its values; one more than its length is fuel enough.
  pub scan-Chain :
      (p : Pool) (o : Oid) (xs : List Item) (fuel : ℕ)
      → Chain p o xs
      → length xs < fuel
      → scan T fuel p o ≡ some (vals_of xs)
  unfolding scan
  scan-Chain p zero [] fuel c h = refl
  scan-Chain p (suc o) [] fuel c h = ground (arith, c)
  scan-Chain p zero (x ∷ xs) fuel (at, ne, u, v, unique, rest) h = ground (arith, at, ne)
  scan-Chain p (suc o) (x ∷ xs) zero c h = ground (arith, h)
  scan-Chain p (suc o) (x ∷ xs) (suc fuel) (at, ne, u, v, unique, rest) h =
      let more : scan T fuel p (T.elem_of p (suc o)).next ≡ some (vals_of xs) =
        ap (λ a. scan T fuel p (T.elem_of p a).next) at
        ∙ scan-Chain p (T.elem_of p x.0).next xs fuel rest (omega (arith, h)) in
      rw more (ap (λ a. some (a ∷ vals_of xs)) (ap (λ a. (T.elem_of p a).val) at ∙ v))

  -- What an append does to the elements: `tail` links to the new one, and the others stay.
  pub record Linked (p q : Pool) (root tail new v : ℕ) : Type 0 where
    pub new_used : (j : Oid) → used q j ≡ (new == j || used p j)
    pub new_unused : used p new ≡ false
    pub new_real : new ≢ 0
    pub new_elem : T.elem_of q new ≡ record { val = v; next = 0 }
    pub others :
        (j : Oid)
        → used p j ≡ true
        → root ≢ j
        → T.elem_of q j
          ≡ (if tail == j then record { val = (T.elem_of p j).val; next = new } else T.elem_of p j)

  has-used :
      (p : Pool) (o new : Oid) (xs : List Item)
      → Chain p o xs
      → used p new ≡ false
      → has xs new ≡ false
  has-used p o new [] c h = refl
  has-used p o new (x ∷ xs) (at, ne, u, v, unique, rest) h =
      ground (arith, has-used p (T.elem_of p x.0).next new xs rest h, u, h)

  pub Chain-append :
      (p q : Pool) (root o new v : ℕ) (x : Item) (xs : List Item)
      → Linked p q root (last_of (x ∷ xs)) new v
      → has (x ∷ xs) root ≡ false
      → Chain p o (x ∷ xs)
      → Chain q o (x ∷ (xs ++ ((new, v) ∷ [])))
  Chain-append p q root o new v x [] l apart (at, ne, u, w, unique, rest) =
      let e = l.others x.0 u (λ h. ground (arith, h, apart)) in
      (
        at,
        ne,
        ground (arith, l.new_used x.0, u),
        ground (arith, e, w),
        ground (arith, u, l.new_unused),
        (
          ground (arith, e),
          l.new_real,
          ground (arith, l.new_used new),
          ap (λ e. e.val) l.new_elem,
          refl,
          ap (λ e. e.next) l.new_elem,
        ),
      )
  Chain-append p q root o new v x (y ∷ xs) l apart (at, ne, u, w, unique, rest) =
      let e = l.others x.0 u (λ h. ground (arith, h, apart)) in
      let middle : x.0 ≢ last_of (y ∷ xs) =
        λ h. ground (arith, unique, ap (has (y ∷ xs)) h, has-last y xs) in
      let same : T.elem_of q x.0 ≡ T.elem_of p x.0 = ground (arith, e, middle) in
      (
        at,
        ne,
        ground (arith, l.new_used x.0, u),
        ap (λ e. e.val) same ∙ w,
        ground (arith, unique, has-append (y ∷ xs) (new, v) x.0, u, l.new_unused),
        rw same (
            Chain-append p q root (T.elem_of p x.0).next new v y xs l (ground (arith, apart)) rest),
      )
