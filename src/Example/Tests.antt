-- ===== src/Example/Tests.antt =====
-- Runs of the programs of example/ on pools in memory, and the theorems about them at concrete
-- inputs.
use mss_kv_lab.Base.{◌≡◌, refl, true, false, List, [], ◌∷◌, Bytes, codes, none, arith}
use mss_kv_lab.Base.Result.{Result, fault, exited}
use mss_kv_lab.Example.Program.{Process}
use mss_kv_lab.Example.Session.{
  Line, created, opened, closed, consistent, appended, append_failed, list_shown, path_of,
  open_pool, close_pool, session, create_pool_main, declare_toid_main,
}
use mss_kv_lab.Example.Session.Laws.{AllClosed, Ending, path_in}
use mss_kv_lab.Example.Alloc.{alloc_root_main}
use mss_kv_lab.Example.Alloc.Laws.{examples-AllClosed}
use mss_kv_lab.Example.LinkedList.{append_and_scan, linked_list_body, linked_list_main}
use mss_kv_lab.Example.LinkedList.Append.{link, append_at, append_body, ended, append, scan}
use mss_kv_lab.Example.LinkedList.Chain.{IsList}
use mss_kv_lab.Example.LinkedList.Laws.{All, append-power_failure}
use mss_kv_lab.Example.LinkedList.Output.{Ends, append_and_scan_lem}
use mss_kv_lab.Example.Ram.{Pool, Files, live, ram, ram_objects, ram_transactions}
use mss_kv_lab.Example.Ram.Documented.{ram_documented, objects_documented, transactions_documented}

abbrev path : Bytes
path = codes "pool"

abbrev arguments : List Bytes
arguments = codes "example" ∷ path ∷ []

abbrev at_start : Process Files Line
at_start = record { world = record { is_open = λ q. false; stored = λ q. none }; printed = [] }

-- A pool with the root object 1 and one element, the object 2.
abbrev one_item : Pool
one_item = record {
  name = path;
  limit = 3;
  made = 2;
  kept = λ j. true;
  heads = λ j. record { num_elements = 1; head = 2; tail = 2 };
  elems = λ j. record { val = 100; next = 0 };
}

one_item-IsList : IsList ram_transactions live one_item 1 ((2, 100) ∷ [])
one_item-IsList = record {
  root_used = refl;
  root_apart = refl;
  items = (refl, ground arith, refl, refl, refl, refl);
  at_tail = refl;
  counted = refl;
}

examples-AllClosed_example :
    (AllClosed ram ram_documented (create_pool_main ram arguments at_start).1.world
      × Ending ram ram_documented
          (path_in ram ram_documented arguments)
          (create_pool_main ram arguments at_start))
    × (AllClosed ram ram_documented (declare_toid_main ram arguments at_start).1.world
        × Ending ram ram_documented
            (path_in ram ram_documented arguments)
            (declare_toid_main ram arguments at_start))
    × (AllClosed ram ram_documented (alloc_root_main ram ram_objects arguments at_start).1.world
        × Ending ram ram_documented
            (path_in ram ram_documented arguments)
            (alloc_root_main ram ram_objects arguments at_start))
examples-AllClosed_example =
    examples-AllClosed ram ram_documented ram_objects objects_documented arguments at_start
      (λ q. refl)

append-power_failure_example :
    All
      (λ t. IsList ram_transactions live (ram_transactions.after_failure 4 t) 1 ((2, 100) ∷ []))
      (append ram_transactions 1 one_item).0
append-power_failure_example =
    append-power_failure ram_transactions transactions_documented one_item 1 ((2, 100) ∷ []) 4
      one_item-IsList

append_and_scan_lem_example :
    Ends ram ram_transactions transactions_documented
      ((2, 100) ∷ [])
      1
      at_start
      (append_and_scan ram ram_transactions 3 1 one_item at_start)
append_and_scan_lem_example =
    append_and_scan_lem ram ram_transactions transactions_documented 3 1 one_item ((2, 100) ∷ [])
      at_start one_item-IsList (omega arith)

-- What the first and the second run print, and a run on a pool that is full.
abbrev after_one : Result (Unit {0}) × Process Files Line
after_one = linked_list_main ram ram_transactions 5 arguments at_start

first_run :
    after_one.1.printed ≡ created ∷ appended ∷ list_shown (100 ∷ []) ∷ closed ∷ consistent ∷ []
unfolding linked_list_main linked_list_body append_and_scan append append_body append_at link ended
    scan session path_of open_pool close_pool
first_run = refl

second_run :
    (linked_list_main ram ram_transactions 5 arguments
      (record { world = after_one.1.world; printed = [] })).1.printed
    ≡ opened ∷ appended ∷ list_shown (100 ∷ 100 ∷ []) ∷ closed ∷ consistent ∷ []
unfolding linked_list_main linked_list_body append_and_scan append append_body append_at link ended
    scan session path_of open_pool close_pool
second_run = refl

full_run :
    (append_and_scan ram ram_transactions 3 1 (record one_item { limit = 2 }) at_start).1.printed
    ≡ append_failed ∷ list_shown (100 ∷ []) ∷ []
unfolding append_and_scan append append_body append_at link ended scan
full_run = refl

no_path : (create_pool_main ram (codes "create_pool" ∷ []) at_start).0 ≡ fault (exited 1)
unfolding create_pool_main session path_of
no_path = refl
