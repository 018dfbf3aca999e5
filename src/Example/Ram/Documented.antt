-- ===== src/Example/Ram/Documented.antt =====
-- The pools in memory keep what libpmemobj documents.
use mss_kv_lab.Base.{suc, refl, ap, arith, leb, Bool-cases, inl, inr}
use mathlib.Core.Path.{subst}
use mss_kv_lab.Example.Session
use mss_kv_lab.Example.Alloc.Laws
use mss_kv_lab.Example.LinkedList
use mss_kv_lab.Example.LinkedList.Documented.{Agrees}
use mss_kv_lab.Example.Ram.{live, allocated, ram, ram_objects, ram_transactions}
use mss_kv_lab.Example.Ram.Keeps.{
  Opened, open_file-Opened, create_file-Opened, alloc-Allocated, constructed_name, Recoverable,
  rolled_back-Agrees, Agrees-refl, znew-Recoverable, Fresh, znew-Fresh, znew_keeps,
}

abbrev pub ram_documented : Session.Laws.Documented ram
ram_documented = record {
  is_open = λ w q. w.is_open q;
  name_of = λ p. p.name;
  opens = λ path lay w w' p e. subst (Opened path w) e (open_file-Opened path w (w.stored path));
  open_fails = λ path lay w w' e. subst (Opened path w) e (open_file-Opened path w (w.stored path));
  creates = λ path lay size mode w w' p e.
      subst (Opened path w) e (create_file-Opened path w (w.stored path));
  create_fails = λ path lay size mode w w' e.
      subst (Opened path w) e (create_file-Opened path w (w.stored path));
  closes = λ p w q. refl;
}

abbrev pub objects_documented : Laws.Documented ram ram_documented ram_objects
objects_documented = record {
  live = live;
  root_name = λ p size. elim (Bool-cases (leb 1 p.made)) [ inl e ↦ rw e refl | inr e ↦ rw e refl ];
  alloc_name = λ p old size type_num c same. elim (Bool-cases (leb p.limit p.made)) [
    | inl e ↦ rw e refl
    | inr e ↦ rw e (constructed_name p old (suc p.made) _ (same (allocated p) (suc p.made)))
  ];
  free_name = λ p o ok. refl;
  root_live = λ p size. elim (Bool-cases (leb 1 p.made)) [
    | inl e ↦ inr (rw e ground arith)
    | inr e ↦ inr (rw e ground arith)
  ];
  persist_name = λ p o size. refl;
  store_name = λ p o e. refl;
  alloc_live = alloc-Allocated;
  free_live = λ p o j ok. ground arith;
  persist_live = λ p o size j. refl;
  store_live = λ p o e j. refl;
}

abbrev pub transactions_documented : LinkedList.Documented.Documented ram_transactions
transactions_documented = record {
  used = live;
  covered = λ t. t.covered;
  Recoverable = Recoverable;
  begins = λ p. (Agrees-refl p, (refl, λ o c. refl, λ o c. refl));
  commits = λ t. Agrees-refl t.now;
  aborts = rolled_back-Agrees;
  fails = λ p t k. rolled_back-Agrees p t;
  locks = λ p o. Agrees-refl p;
  unlocks = λ p o. Agrees-refl p;
  znew_recoverable = znew-Recoverable;
  znew_fresh = λ t t' o e. subst (Fresh t) e (znew-Fresh t);
  znew_keeps = znew_keeps;
  add_recoverable =
      λ p o t r. (r.0, λ j c. r.1 j (ground (arith, c)), λ j c. r.2 j (ground (arith, c)));
  add_keeps = λ o t. Agrees-refl t.now;
  add_covers = λ o t j e. refl;
  head_recoverable = λ p o h t c r. (r.0, λ j d. ground (arith, c, d, ap t.covered, r.1 j), r.2);
  head_covered = λ o h t j. refl;
  head_used = λ o h t j. refl;
  head_written = λ o h t. ground arith;
  head_others = λ o h t j n. refl;
  elem_recoverable = λ p o e t c r. (r.0, r.1, λ j d. ground (arith, c, d, ap t.covered, r.2 j));
  elem_covered = λ o e t j. refl;
  elem_used = λ o e t j. refl;
  elem_written = λ o e t. ground arith;
  elem_others = λ o e t j n. (ground (arith, n), refl);
}
