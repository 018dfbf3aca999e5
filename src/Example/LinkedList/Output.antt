-- ===== src/Example/LinkedList/Output.antt =====
-- What example/linked_list.c prints of its list.
use mss_kv_lab.Base.{
  ℕ, ◌+◌, ◌<◌, ◌≡◌, refl, ap, Bool, true, false, ◌⊎◌, inl, inr, List, [], ◌∷◌, ◌++◌, some, length,
  length-append, arith, if◌then◌else◌,
}
use mss_kv_lab.Base.Result.{Result, done}
use mss_kv_lab.Example.Program.{Process, ◌>>◌, print, pure}
use mss_kv_lab.Example.Session.{Pools, Line, appended, append_failed, list_shown}
use mss_kv_lab.Example.Alloc.{Oid}
use mss_kv_lab.Example.LinkedList.{append_and_scan, show}
use mss_kv_lab.Example.LinkedList.Append.{Transactions, append, scan}
use mss_kv_lab.Example.LinkedList.Documented
use mss_kv_lab.Example.LinkedList.Chain.{Item, vals_of, IsList, IsList-Agrees, scan-Chain}
use mss_kv_lab.Example.LinkedList.Laws.{Outcome, append_lem}

vals_of_append : (xs ys : List Item) → vals_of (xs ++ ys) ≡ vals_of xs ++ vals_of ys
vals_of_append [] ys = refl
vals_of_append (x ∷ xs) ys = ap (λ vs. x.1 ∷ vs) (vals_of_append xs ys)

module _ (lib : Pools) (T : Transactions lib.Pool) (doc : Documented.Documented T) where
  open doc use {used}

  abbrev after_print : Line → Line → Process lib.Files Line → Process lib.Files Line
  after_print a b s = record s { printed = s.printed ++ (a ∷ []) ++ (b ∷ []) }

  -- What comes after the transaction.
  abbrev rest_of :
      ℕ
      → Oid
      → List T.Tx × Bool × lib.Pool
      → Process lib.Files Line
      → Result lib.Pool × Process lib.Files Line
  rest_of fuel root (states, committed, pop1) =
      let pop2 = T.pmemobj_mutex_unlock pop1 root in
      print (if committed then appended else append_failed)
      >> show lib T (scan T fuel pop2 (T.head_of pop2 root).head)
      >> pure pop2

  -- Unlocking and scanning a pool whose list has the items ys.
  scanned :
      (fuel : ℕ) (root : Oid) (pop : lib.Pool) (ys : List Item)
      → IsList T used pop root ys
      → length ys < fuel
      → let pop2 = T.pmemobj_mutex_unlock pop root in
        (scan T fuel pop2 (T.head_of pop2 root).head ≡ some (vals_of ys))
        × IsList T used pop2 root ys
  scanned fuel root pop ys l h =
      let l2 = IsList-Agrees T used pop _ root ys (doc.unlocks pop root) l in
      (scan-Chain T used _ _ ys fuel l2.items h, l2)

  abbrev pub Ends :
      List Item → Oid → Process lib.Files Line → Result lib.Pool × Process lib.Files Line → Type 0
  Ends xs root s end =
      (pop' : lib.Pool) × (((new : Oid) × (end
            ≡ (done pop', after_print appended (list_shown (vals_of xs ++ (100 ∷ []))) s))
          × IsList T used pop' root (xs ++ ((new, 100) ∷ [])))
        ⊎ ((end ≡ (done pop', after_print append_failed (list_shown (vals_of xs)) s))
            × IsList T used pop' root xs))

  rest_of-Ends :
      (fuel : ℕ) (root : Oid) (pop : lib.Pool) (xs : List Item) (s : Process lib.Files Line)
      (r : List T.Tx × Bool × lib.Pool)
      → IsList T used pop root xs
      → length xs + 1 < fuel
      → Outcome T doc pop root xs r
      → Ends xs root s (rest_of fuel root r s)
  unfolding show
  rest_of-Ends fuel root pop xs s (states, true, pop1) l h (new, ne, fresh, l1) =
      let ys = xs ++ ((new, 100) ∷ []) in
      let (e, l2) =
        scanned fuel root pop1 ys l1 (omega (arith, h, length-append xs ((new, 100) ∷ []))) in
      (_, inl (new, rw (e, vals_of_append xs ((new, 100) ∷ [])) refl, l2))
  rest_of-Ends fuel root pop xs s (states, false, pop1) l h same =
      let l1 = IsList-Agrees T used pop pop1 root xs same l in
      let (e, l2) = scanned fuel root pop1 xs l1 (omega (arith, h)) in (_, inr (rw e refl, l2))

  -- On a pool whose list has the items xs, with fuel for one more item than there are then, the
  -- program returns from the scan: either it says that it has appended, shows the values of xs and
  -- 100, and the list has one item more; or it says that it has failed to, shows the values of xs,
  -- and the list is xs.
  pub append_and_scan_lem :
      (fuel : ℕ) (root : Oid) (pop : lib.Pool) (xs : List Item) (s : Process lib.Files Line)
      → IsList T used pop root xs
      → length xs + 1 < fuel
      → Ends xs root s (append_and_scan lib T fuel root pop s)
  unfolding append_and_scan
  append_and_scan_lem fuel root pop xs s l h =
      let locked = IsList-Agrees T used pop _ root xs (doc.locks pop root) l in
      rest_of-Ends fuel root _ xs s (append T root (T.pmemobj_mutex_lock pop root)) locked h
        (append_lem T doc (T.pmemobj_mutex_lock pop root) root xs locked)
