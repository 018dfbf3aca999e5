-- ===== src/Example/Ram/Keeps.antt =====
-- What the operations of the pools in memory keep.
use mss_kv_lab.Base.{
  ℕ, suc, ◌≡◌, ◌≢◌, refl, ap, ◌∙◌, true, false, ◌||◌, Bytes, bytes_eq, Option, none, some, arith,
  ◌==◌, leb, Bool-cases, inl, inr,
}
use mss_kv_lab.Base.Int.{ℤ, pos, negsuc}
use mss_kv_lab.Example.Alloc.{Oid}
use mss_kv_lab.Example.LinkedList.Documented.{Agrees}
use mss_kv_lab.Example.Ram.{
  no_elem, Pool, Files, live, allocated, open_file, create_file, constructed, ram_objects, Tx,
  rolled_back, ram_transactions,
}

abbrev pub Opened : Bytes → Files → Option Pool × Files → Type 0
Opened path w (none, w') = (q : Bytes) → w'.is_open q ≡ w.is_open q
Opened path w (some p, w') =
    (p.name ≡ path) × ((q : Bytes) → w'.is_open q ≡ (bytes_eq path q || w.is_open q))

pub open_file-Opened :
    (path : Bytes) (w : Files) (o : Option Pool) → Opened path w (open_file path w o)
open_file-Opened path w none = λ q. refl
open_file-Opened path w (some p) = (refl, λ q. refl)

pub create_file-Opened :
    (path : Bytes) (w : Files) (o : Option Pool) → Opened path w (create_file path w o)
create_file-Opened path w none = (refl, λ q. refl)
create_file-Opened path w (some p) = λ q. refl

abbrev pub Allocated : Pool → ℤ × Oid × Pool → Type 0
Allocated p r =
    r.0 ≡ pos 0
    → (r.1 ≢ 0) × (live p r.1 ≡ false) × ((j : Oid) → live r.2 j ≡ (r.1 == j || live p j))

pub constructed-Allocated :
    (p : Pool) (old : Oid) (r : ℤ × Pool)
    → ((j : Oid) → live r.1 j ≡ live (allocated p) j)
    → Allocated p (constructed p old (suc p.made) r)
constructed-Allocated p old (pos n, q) same e =
    (ground arith, ground arith, λ j. same j ∙ ground arith)
constructed-Allocated p old (negsuc n, q) same e = cc e

pub alloc-Allocated :
    (p : Pool) (old : Oid) (size type_num : ℕ) (c : Pool → Oid → ℤ × Pool)
    → ((q : Pool) (o j : Oid) → live (c q o).1 j ≡ live q j)
    → Allocated p (ram_objects.pmemobj_alloc p old size type_num c)
alloc-Allocated p old size type_num c same = elim (Bool-cases (leb p.limit p.made)) [
  | inl e ↦ rw e (λ h. cc h)
  | inr e ↦
      rw e (
        constructed-Allocated p old (c (allocated p) (suc p.made))
          (same (allocated p) (suc p.made)))
]

pub constructed_name :
    (p : Pool) (old o : Oid) (r : ℤ × Pool)
    → r.1.name ≡ p.name
    → (constructed p old o r).2.name ≡ p.name
constructed_name p old o (pos n, q) h = h
constructed_name p old o (negsuc n, q) h = refl

-- What lies outside the undo log is as it was when the transaction began.
abbrev pub Recoverable : Pool → Tx → Type 0
Recoverable p t =
    (t.old ≡ p)
    × ((o : Oid) → t.covered o ≡ false → t.now.heads o ≡ t.old.heads o)
    × ((o : Oid) → t.covered o ≡ false → t.now.elems o ≡ t.old.elems o)

pub rolled_back-Agrees :
    (p : Pool) (t : Tx) → Recoverable p t → Agrees ram_transactions live p (rolled_back t)
rolled_back-Agrees p t (e, h, k) = record {
  same_used = λ o. ap (λ q. live q o) e;
  same_head = λ o y. elim (Bool-cases (t.covered o)) [
    | inl c ↦ rw c (ap (λ q. q.heads o) e)
    | inr c ↦ rw c (h o c ∙ ap (λ q. q.heads o) e)
  ];
  same_elem = λ o y. elim (Bool-cases (t.covered o)) [
    | inl c ↦ rw c (ap (λ q. q.elems o) e)
    | inr c ↦ rw c (k o c ∙ ap (λ q. q.elems o) e)
  ];
}

pub Agrees-refl : (p : Pool) → Agrees ram_transactions live p p
Agrees-refl p = record { same_used = λ o. refl; same_head = λ o y. refl; same_elem = λ o y. refl }

pub znew-Recoverable :
    (p : Pool) (t : Tx) → Recoverable p t → Recoverable p (ram_transactions.tx_znew t).1
znew-Recoverable p t (e, h, k) = elim (Bool-cases (leb t.now.limit t.now.made)) [
  | inl c ↦ rw c (e, h, k)
  | inr c ↦ rw c (e, λ j d. ground (arith, d, h j), λ j d. ground (arith, d, k j))
]

abbrev pub Fresh : Tx → Option Oid × Tx → Type 0
Fresh t (none, t') = Unit
Fresh t (some o, t') =
    (o ≢ 0)
    × (live t.now o ≡ false)
    × ((j : Oid) → live t'.now j ≡ (o == j || live t.now j))
    × (t'.now.elems o ≡ no_elem)
    × ((j : Oid) → t'.covered j ≡ (o == j || t.covered j))

pub znew-Fresh : (t : Tx) → Fresh t (ram_transactions.tx_znew t)
znew-Fresh t = elim (Bool-cases (leb t.now.limit t.now.made)) [
  | inl c ↦ rw c tt
  | inr c ↦ rw c (ground arith, ground arith, λ j. ground arith, ground arith, λ j. refl)
]

pub znew_keeps :
    (t : Tx) (j : Oid)
    → live t.now j ≡ true
    → let t' = (ram_transactions.tx_znew t).1 in
      (t'.now.heads j ≡ t.now.heads j) × (t'.now.elems j ≡ t.now.elems j)
znew_keeps t j y = elim (Bool-cases (leb t.now.limit t.now.made)) [
  | inl c ↦ rw c (refl, refl)
  | inr c ↦ rw c (ground (arith, y), ground (arith, y))
]
