-- ===== src/Example/Alloc.antt =====
-- example/alloc_root_object.c, example/alloc_by_toid.c and example/alloc_by_pmemoid.c. An object is
-- named by its offset in the one pool; the offset of OID_NULL is 0.
pub mod Laws
use mss_kv_lab.Base.{ℕ, zero, suc, Bool, List, [], ◌∷◌, Bytes, ◌==◌, if◌then◌else◌}
use mss_kv_lab.Base.Int.{ℤ, pos, negsuc}
use mss_kv_lab.Base.Result.{assert_failed, undefined}
use mss_kv_lab.Example.Program.{◌>>=◌, ◌>>◌, pure, print, leave}
use mss_kv_lab.Example.Session.{
  Pools, Line, root_created, root_failed, object_created, object_failed, object_freed, root_freed,
  Example, session,
}

abbrev pub Oid : Type 0
Oid = ℕ

-- `struct list_elem`
pub record Elem : Type 0 where
  pub val : ℕ
  pub next : Oid

-- Two ints' room and a PMEMoid, for `struct list_head` and `struct list_elem`.
abbrev pub struct_size : ℕ
struct_size = 24

-- The functions of libpmemobj that manage objects. `pmemobj_alloc` is given what `*oidp` holds
-- before the call, and a constructor, which runs on the new object.
pub record Objects (Pool : Type 0) : Type 1 where
  pub pmemobj_root : Pool → ℕ → Oid × Pool
  pub pmemobj_alloc : Pool → Oid → ℕ → ℕ → (Pool → Oid → ℤ × Pool) → ℤ × Oid × Pool
  pub pmemobj_free : Pool → Oid → Pool
  pub pmemobj_persist : Pool → Oid → ℕ → Pool
  pub store_elem : Pool → Oid → Elem → Pool  -- a write to the mapped object

module _ (lib : Pools) (objs : Objects lib.Pool) where
  -- `memset` and `pmemobj_persist`
  unfoldable pub elem_constructor : lib.Pool → Oid → ℤ × lib.Pool
  elem_constructor pop ptr =
      let zeroed = objs.store_elem pop ptr (record { val = 0; next = 0 }) in
      (pos 0, objs.pmemobj_persist zeroed ptr struct_size)

  -- `POBJ_ROOT`, and the line about it.
  root_object : lib.Pool → Example lib (Oid × lib.Pool)
  root_object pop =
      let r = objs.pmemobj_root pop struct_size in
      print (if r.0 == 0 then root_failed else root_created) >> pure r

  free_root : Oid → lib.Pool → Example lib lib.Pool
  free_root root pop = let freed = objs.pmemobj_free pop root in print root_freed >> pure freed

  unfoldable pub alloc_root_body : lib.Pool → Example lib lib.Pool
  unfolding root_object free_root
  alloc_root_body pop = do r ← root_object pop; free_root r.0 r.1

  -- `POBJ_NEW` into the variable `elem`, which holds `junk`. The result is dropped, and after a
  -- failure the variable still has no value, so the test for null that follows is undefined.
  set_elem : ℤ × Oid × lib.Pool → Example lib (Oid × lib.Pool)
  set_elem (pos zero, elem, pop) = pure (elem, pop)
  set_elem (pos (suc n), elem, pop) = leave undefined
  set_elem (negsuc n, elem, pop) = leave undefined

  new_elem : Oid → lib.Pool → Example lib (Oid × lib.Pool)
  unfolding set_elem
  new_elem junk pop = set_elem (objs.pmemobj_alloc pop junk struct_size 1 elem_constructor)

  -- From the test for null on.
  free_both : Oid → Oid × lib.Pool → Example lib lib.Pool
  unfolding free_root
  free_both root e = do
    print (if e.0 == 0 then object_failed else object_created)
    let freed = objs.pmemobj_free e.1 e.0
    print object_freed
    free_root root freed

  unfoldable pub alloc_by_toid_body : Oid → lib.Pool → Example lib lib.Pool
  unfolding root_object new_elem free_both
  alloc_by_toid_body junk pop = do r ← root_object pop; e ← new_elem junk r.1; free_both r.0 e

  -- `assert(ret == 0); pmemobj_free(&elem);`
  free_allocated : ℤ × Oid × lib.Pool → Example lib lib.Pool
  free_allocated (pos zero, elem_oid, pop) = pure (objs.pmemobj_free pop elem_oid)
  free_allocated (pos (suc n), elem_oid, pop) = leave assert_failed
  free_allocated (negsuc n, elem_oid, pop) = leave assert_failed

  unfoldable pub alloc_by_pmemoid_body : Oid → lib.Pool → Example lib lib.Pool
  unfolding free_allocated
  alloc_by_pmemoid_body junk pop =
      free_allocated (objs.pmemobj_alloc pop junk struct_size 1 elem_constructor)

  unfoldable pub alloc_root_main : List Bytes → Example lib (Unit {0})
  alloc_root_main = session lib alloc_root_body

  unfoldable pub alloc_by_toid_main : Oid → List Bytes → Example lib (Unit {0})
  alloc_by_toid_main junk = session lib (alloc_by_toid_body junk)

  unfoldable pub alloc_by_pmemoid_main : Oid → List Bytes → Example lib (Unit {0})
  alloc_by_pmemoid_main junk = session lib (alloc_by_pmemoid_body junk)
