-- ===== src/Example/LinkedList.antt =====
-- example/linked_list.c: a list in a pool, to which each run appends an element in a transaction.
pub mod Cmd
pub mod Append
pub mod Documented
pub mod Chain
pub mod Safely
pub mod Link
pub mod Laws
pub mod Output
use mss_kv_lab.Base.{ℕ, Bool, List, [], ◌∷◌, Option, none, some, Bytes, ◌==◌, if◌then◌else◌}
use mss_kv_lab.Base.Result.{assert_failed, unfinished}
use mss_kv_lab.Example.Program.{◌>>=◌, ◌>>◌, pure, print, leave}
use mss_kv_lab.Example.Session.{Pools, appended, append_failed, list_shown, Example, session}
use mss_kv_lab.Example.Alloc.{Oid}
use mss_kv_lab.Example.LinkedList.Append.{Transactions, append, scan}

module _ (lib : Pools) (T : Transactions lib.Pool) where
  show : Option (List ℕ) → Example lib (Unit {0})
  show none = leave unfinished
  show (some vals) = print (list_shown vals)

  -- From the lock to the end of the scan.
  unfoldable pub append_and_scan : ℕ → Oid → lib.Pool → Example lib lib.Pool
  unfolding append scan show
  append_and_scan fuel root pop =
      let (states, committed, pop1) = append T root (T.pmemobj_mutex_lock pop root) in
      let pop2 = T.pmemobj_mutex_unlock pop1 root in
      print (if committed then appended else append_failed)
      >> show (scan T fuel pop2 (T.head_of pop2 root).head)
      >> pure pop2

  -- `assert(!TOID_IS_NULL(root))`, and what follows.
  unfoldable pub linked_list_body : ℕ → lib.Pool → Example lib lib.Pool
  unfolding append_and_scan
  linked_list_body fuel pop =
      let (root, pop') = T.pmemobj_root pop 104 in
      if root == 0 then leave assert_failed else append_and_scan fuel root pop'

  unfoldable pub linked_list_main : ℕ → List Bytes → Example lib (Unit {0})
  unfolding linked_list_body
  linked_list_main fuel = session lib (linked_list_body fuel)
