-- ===== src/Example/Ram.antt =====
-- A libpmemobj that keeps its pools in memory, to run the programs on. Files that fail their check,
-- pools that are full and open handles can be set up.
pub mod Keeps
pub mod Documented
use mss_kv_lab.Base.{
  ℕ, suc, Bool, true, false, not, ◌&&◌, ◌||◌, List, Bytes, bytes_eq, Option, none, some, leb, ◌==◌,
  if◌then◌else◌,
}
use mss_kv_lab.Base.Int.{ℤ, pos, negsuc}
use mss_kv_lab.Example.Session.{Pools}
use mss_kv_lab.Example.Alloc.{Oid, Elem, Objects}
use mss_kv_lab.Example.LinkedList.Append.{ListHead, ListElem, Transactions}

-- The objects are numbered from 1 to `made`. `kept` tells which of them have not been freed.
pub record Pool : Type 0 where
  pub name : Bytes
  pub limit : ℕ
  pub made : ℕ
  pub kept : Oid → Bool
  pub heads : Oid → ListHead
  pub elems : Oid → ListElem

pub record Files : Type 0 where
  pub is_open : Bytes → Bool
  pub stored : Bytes → Option Pool

abbrev no_head : ListHead
no_head = record { num_elements = 0; head = 0; tail = 0 }

abbrev pub no_elem : ListElem
no_elem = record { val = 0; next = 0 }

abbrev pub empty_pool : ℕ → Bytes → Pool
empty_pool limit path = record {
  name = path;
  limit = limit;
  made = 0;
  kept = λ _. false;
  heads = λ _. no_head;
  elems = λ _. no_elem;
}

abbrev pub live : Pool → Oid → Bool
live p o = leb o p.made && p.kept o

-- A new object, zeroed.
abbrev pub allocated : Pool → Pool
allocated p =
    let o = suc p.made in
    record p {
      made = o;
      kept = λ j. o == j || p.kept j;
      heads = λ j. if o == j then no_head else p.heads j;
      elems = λ j. if o == j then no_elem else p.elems j;
    }

abbrev with_handle : Bytes → Files → Files
with_handle path w = record w { is_open = λ q. bytes_eq path q || w.is_open q }

abbrev pub open_file : Bytes → Files → Option Pool → Option Pool × Files
open_file path w none = (none, w)
open_file path w (some p) = (some (record p { name = path }), with_handle path w)

abbrev pub create_file : Bytes → Files → Option Pool → Option Pool × Files
create_file path w (some p) = (none, w)
create_file path w none = (some (empty_pool 3 path), with_handle path w)

abbrev pub close_file : Pool → Files → Files
close_file p w = record {
  is_open = λ q. if bytes_eq p.name q then false else w.is_open q;
  stored = λ q. if bytes_eq p.name q then some p else w.stored q;
}

abbrev pub check_result : Option Pool → ℤ
check_result none = negsuc 0
check_result (some p) = pos 1

abbrev pub ram : Pools
ram = record {
  Files = Files;
  Pool = Pool;
  pmemobj_open = λ path lay w. open_file path w (w.stored path);
  pmemobj_create = λ path lay size mode w. create_file path w (w.stored path);
  pmemobj_close = close_file;
  pmemobj_check = λ path lay w. check_result (w.stored path);
}

-- What the constructor's result makes of an allocation.
abbrev pub constructed : Pool → Oid → Oid → ℤ × Pool → ℤ × Oid × Pool
constructed p old o (pos n, q) = (pos n, o, q)
constructed p old o (negsuc n, q) = (negsuc n, old, p)

abbrev pub root_of : Pool → Oid × Pool
root_of p =
    if leb 1 p.made then (1, record p { kept = λ j. 1 == j || p.kept j }) else (1, allocated p)

abbrev pub ram_objects : Objects Pool
ram_objects = record {
  pmemobj_root = λ p size. root_of p;
  pmemobj_alloc = λ p old size type_num c.
      if leb p.limit p.made
      then (negsuc 0, old, p)
      else constructed p old (suc p.made) (c (allocated p) (suc p.made));
  pmemobj_free = λ p o. record p { kept = λ j. if o == j then false else p.kept j };
  pmemobj_persist = λ p o size. p;
  store_elem = λ p o e. record p {
    elems = λ j. if o == j then record { val = e.val; next = e.next } else p.elems j;
  };
}

-- A transaction: the memory, the pool it began on, and the objects that the undo log covers.
pub record Tx : Type 0 where
  pub now : Pool
  pub old : Pool
  pub covered : Oid → Bool

abbrev pub rolled_back : Tx → Pool
rolled_back t = record (t.old) {
  heads = λ j. if t.covered j then t.old.heads j else t.now.heads j;
  elems = λ j. if t.covered j then t.old.elems j else t.now.elems j;
}

abbrev pub ram_transactions : Transactions Pool
ram_transactions = record {
  Tx = Tx;
  head_of = λ p o. p.heads o;
  elem_of = λ p o. p.elems o;
  mapped = λ t. t.now;
  pmemobj_root = λ p size. root_of p;
  pmemobj_mutex_lock = λ p o. p;
  pmemobj_mutex_unlock = λ p o. p;
  tx_begin = λ p. record { now = p; old = p; covered = λ _. false };
  tx_commit = λ t. t.now;
  tx_abort = rolled_back;
  tx_znew = λ t.
      let o = suc t.now.made in
      if leb t.now.limit t.now.made
      then (none, t)
      else (some o, record t { now = allocated t.now; covered = λ j. o == j || t.covered j });
  tx_add = λ o t. (true, record t { covered = λ j. o == j || t.covered j });
  set_head = λ o h t. record t {
    now = record (t.now) { heads = λ j. if o == j then h else t.now.heads j };
  };
  set_elem = λ o e t. record t {
    now = record (t.now) { elems = λ j. if o == j then e else t.now.elems j };
  };
  after_failure = λ k t. rolled_back t;
}
