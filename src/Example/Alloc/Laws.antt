-- ===== src/Example/Alloc/Laws.antt =====
-- What libpmemobj documents of objects, and what the programs leave behind.
use mss_kv_lab.Base.{
  ℕ, zero, suc, ◌≡◌, ◌≢◌, refl, ap, ◌∙◌, Bool, true, false, ◌||◌, ◌⊎◌, inl, inr, List, Bytes, arith,
  ◌==◌, if◌then◌else◌,
}
use mss_kv_lab.Base.Int.{ℤ, pos, negsuc}
use mss_kv_lab.Base.Result.{done, fault, assert_failed}
use mss_kv_lab.Example.Program.{Process}
use mss_kv_lab.Example.Session.{Pools, Line, create_pool_main, declare_toid_main}
use mss_kv_lab.Example.Session.Laws
use mss_kv_lab.Example.Session.Laws.{AllClosed, Ending, path_in, Returns, session-AllClosed}
use mss_kv_lab.Example.Alloc.{
  Oid, Elem, Objects, elem_constructor, alloc_root_body, free_allocated, alloc_by_pmemoid_body,
  alloc_root_main,
}

-- No function changes the path of a handle. `live`: the object is allocated.
pub record Documented (lib : Pools) (pools : Laws.Documented lib) (objs : Objects lib.Pool)
    : Type 0 where
  pub live : lib.Pool → Oid → Bool
  pub root_name :
      (pop : lib.Pool) (size : ℕ) → pools.name_of (objs.pmemobj_root pop size).1 ≡ pools.name_of pop
  pub alloc_name :
      (pop : lib.Pool) (old : Oid) (size type_num : ℕ) (c : lib.Pool → Oid → ℤ × lib.Pool)
      → ((q : lib.Pool) (o : Oid) → pools.name_of (c q o).1 ≡ pools.name_of q)
      → pools.name_of (objs.pmemobj_alloc pop old size type_num c).2 ≡ pools.name_of pop
  pub free_name :
      (pop : lib.Pool) (o : Oid)
      → (o ≡ 0) ⊎ (live pop o ≡ true)
      → pools.name_of (objs.pmemobj_free pop o) ≡ pools.name_of pop
  pub root_live :
      (pop : lib.Pool) (size : ℕ)
      → let r = objs.pmemobj_root pop size in (r.0 ≡ 0) ⊎ (live r.1 r.0 ≡ true)
  pub persist_name :
      (pop : lib.Pool) (o : Oid) (size : ℕ)
      → pools.name_of (objs.pmemobj_persist pop o size) ≡ pools.name_of pop
  pub store_name :
      (pop : lib.Pool) (o : Oid) (e : Elem)
      → pools.name_of (objs.store_elem pop o e) ≡ pools.name_of pop
  pub alloc_live :
      (pop : lib.Pool) (old : Oid) (size type_num : ℕ) (c : lib.Pool → Oid → ℤ × lib.Pool)
      → ((q : lib.Pool) (o j : Oid) → live (c q o).1 j ≡ live q j)
      → let r = objs.pmemobj_alloc pop old size type_num c in
        r.0 ≡ pos 0
        → (r.1 ≢ 0) × (live pop r.1 ≡ false) × ((j : Oid) → live r.2 j ≡ (r.1 == j || live pop j))
  pub free_live :
      (pop : lib.Pool) (o j : Oid)
      → (o ≡ 0) ⊎ (live pop o ≡ true)
      → live (objs.pmemobj_free pop o) j ≡ (if o == j then false else live pop j)
  pub persist_live :
      (pop : lib.Pool) (o : Oid) (size : ℕ) (j : Oid)
      → live (objs.pmemobj_persist pop o size) j ≡ live pop j
  pub store_live :
      (pop : lib.Pool) (o : Oid) (e : Elem) (j : Oid)
      → live (objs.store_elem pop o e) j ≡ live pop j

module _ (lib : Pools) (pools : Laws.Documented lib) (objs : Objects lib.Pool)
    (doc : Documented lib pools objs) where
  open doc use {live}
  open pools use {name_of}

  constructor_live :
      (q : lib.Pool) (o j : Oid) → live (elem_constructor lib objs q o).1 j ≡ live q j
  unfolding elem_constructor
  constructor_live q o j = doc.persist_live _ o _ j ∙ doc.store_live q o _ j

  alloc_root-Returns : Returns lib pools (alloc_root_body lib objs)
  unfolding alloc_root_body
  alloc_root-Returns pop s =
      (_, _, refl, refl, doc.free_name _ _ (doc.root_live pop _) ∙ doc.root_name pop _)

  -- Started with every pool closed, create_pool.c, declare_toid.c and alloc_root_object.c leave
  -- every pool closed, whichever way they end. They end by a return or by `exit(1)`, and return
  -- only if a path was given and the pool there passed the check.
  pub examples-AllClosed :
      (argv : List Bytes) (s : Process lib.Files Line)
      → AllClosed lib pools s.world
      → (AllClosed lib pools (create_pool_main lib argv s).1.world
          × Ending lib pools (path_in lib pools argv) (create_pool_main lib argv s))
        × (AllClosed lib pools (declare_toid_main lib argv s).1.world
            × Ending lib pools (path_in lib pools argv) (declare_toid_main lib argv s))
        × (AllClosed lib pools (alloc_root_main lib objs argv s).1.world
            × Ending lib pools (path_in lib pools argv) (alloc_root_main lib objs argv s))
  unfolding create_pool_main declare_toid_main alloc_root_main
  examples-AllClosed argv s shut = (
    session-AllClosed lib pools _ (λ pop s. (_, _, refl, refl, refl)) argv s shut,
    session-AllClosed lib pools _ (λ pop s. (_, _, refl, refl, refl)) argv s shut,
    session-AllClosed lib pools _ alloc_root-Returns argv s shut,
  )

  free_allocated-live :
      (junk : Oid) (pop : lib.Pool) (s : Process lib.Files Line) (r : ℤ × Oid × lib.Pool)
      → objs.pmemobj_alloc pop junk 24 1 (elem_constructor lib objs) ≡ r
      → ((pop' : lib.Pool) × (free_allocated lib objs r s ≡ (done pop', s))
          × ((j : Oid) → live pop' j ≡ live pop j))
        ⊎ ((free_allocated lib objs r s ≡ (fault assert_failed, s)) × (r.0 ≢ pos 0))
  unfolding free_allocated
  free_allocated-live junk pop s (pos zero, o, p) e =
      let law = doc.alloc_live pop junk 24 1 (elem_constructor lib objs) constructor_live in
      let (ne, unused, all) = law (ap (λ r. r.0) e) in
      let same_oid : (objs.pmemobj_alloc pop junk 24 1 (elem_constructor lib objs)).1 ≡ o =
        ap (λ r. r.1) e in
      let same_pool : (objs.pmemobj_alloc pop junk 24 1 (elem_constructor lib objs)).2 ≡ p =
        ap (λ r. r.2) e in
      inl (
        _,
        refl,
        λ j.
            doc.free_live p o j
              (inr (ground (arith, all o, same_oid, ap (λ q. live q o) same_pool)))
            ∙ ground (arith, all j, unused, same_oid, ap (λ q. live q j) same_pool),
      )
  free_allocated-live junk pop s (pos (suc n), o, p) e = inr (refl, λ h. cc h)
  free_allocated-live junk pop s (negsuc n, o, p) e = inr (refl, λ h. cc h)

  -- The work of alloc_by_pmemoid.c on an open pool prints nothing and leaves no object behind:
  -- afterwards exactly the objects are allocated that were before. It fails its assertion when
  -- the allocation fails, and only then.
  pub alloc_by_pmemoid-live :
      (junk : Oid) (pop : lib.Pool) (s : Process lib.Files Line)
      → ((pop' : lib.Pool) × (alloc_by_pmemoid_body lib objs junk pop s ≡ (done pop', s))
          × ((j : Oid) → live pop' j ≡ live pop j))
        ⊎ ((alloc_by_pmemoid_body lib objs junk pop s ≡ (fault assert_failed, s))
            × ((objs.pmemobj_alloc pop junk 24 1 (elem_constructor lib objs)).0 ≢ pos 0))
  unfolding alloc_by_pmemoid_body
  alloc_by_pmemoid-live junk pop s = free_allocated-live junk pop s _ refl

  -- How the work of alloc_by_toid.c on an open pool ends.
  pub record Freed (pop : lib.Pool) (s : Process lib.Files Line) (r : Oid × lib.Pool)
      (pop' : lib.Pool) (s' : Process lib.Files Line) : Type 0 where
    pub world : s'.world ≡ s.world
    pub name : name_of pop' ≡ name_of pop
    pub objects : (j : Oid) → live pop' j ≡ (if r.0 == j then false else live r.1 j)
