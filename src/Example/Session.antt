-- ===== src/Example/Session.antt =====
-- What all programs of example/ share: the path, the pool, and its check at the end. The functions
-- of libpmemobj that manage pools are a parameter.
pub mod Laws
use mss_kv_lab.Base.{ℕ, zero, suc, List, [], ◌∷◌, Bytes, codes, Option, none, some}
use mss_kv_lab.Base.Int.{ℤ, pos, negsuc}
use mss_kv_lab.Base.Result.{done, exited}
use mss_kv_lab.Example.Program.{Process, Prog, ◌>>=◌, ◌>>◌, pure, print, leave}

-- `Files` is what lies on the disk, and `Pool` what a pool handle leads to. A check writes nothing.
pub record Pools : Type 1 where
  pub Files : Type 0
  pub Pool : Type 0
  pub pmemobj_open : Bytes → Bytes → Files → Option Pool × Files
  pub pmemobj_create : Bytes → Bytes → ℕ → ℕ → Files → Option Pool × Files
  pub pmemobj_close : Pool → Files → Files
  pub pmemobj_check : Bytes → Bytes → Files → ℤ

-- `LAYOUT`, `POOL_SIZE` and the mode 0777
abbrev pub layout : Bytes
layout = codes "linkedlist"

abbrev pub pool_size : ℕ
pool_size = 1073741824

abbrev pub all_may_write : ℕ
all_may_write = 511

-- The lines that the programs print, without the path that most of them show.
pub data Line : Type 0 where
  usage create_failed created opened nothing_yet closed : Line
  consistent not_consistent check_failed : Line
  root_created root_failed object_created object_failed object_freed root_freed : Line
  appended append_failed : Line
  list_shown : List ℕ → Line

module _ (lib : Pools) where
  abbrev pub Example : Type 0 → Type 0
  Example A = Prog lib.Files Line A

  -- A call of the library that changes the files.
  abbrev pub call : {A : Type 0} → (lib.Files → A × lib.Files) → Example A
  call f s = let (a, w) = f s.world in (done a, record s { world = w })

  -- `if (argc < 2) { …; exit(1); } path = argv[1];`
  unfoldable pub path_of : List Bytes → Example Bytes
  path_of [] = print usage >> leave (exited 1)
  path_of (name ∷ []) = print usage >> leave (exited 1)
  path_of (name ∷ path ∷ rest) = pure path

  -- `if (!pop) { printf(…); exit(1); }` after `pmemobj_create`
  created_or_exit : Option lib.Pool → Example lib.Pool
  created_or_exit none = print create_failed >> leave (exited 1)
  created_or_exit (some pop) = print created >> pure pop

  -- `if (!pop) { pop = pmemobj_create(…); … } else { … }`
  opened_or_created : Bytes → Option lib.Pool → Example lib.Pool
  unfolding created_or_exit
  opened_or_created path none =
      call (lib.pmemobj_create path layout pool_size all_may_write) >>= created_or_exit
  opened_or_created path (some pop) = print opened >> pure pop

  unfoldable pub open_pool : Bytes → Example lib.Pool
  unfolding opened_or_created
  open_pool path = call (lib.pmemobj_open path layout) >>= opened_or_created path

  -- The three branches on the result of the check.
  report : ℤ → Example (Unit {0})
  report (pos (suc zero)) = print consistent
  report (pos zero) = print not_consistent >> leave (exited 1)
  report (pos (suc (suc n))) = print check_failed >> leave (exited 1)
  report (negsuc n) = print check_failed >> leave (exited 1)

  unfoldable pub close_pool : Bytes → lib.Pool → Example (Unit {0})
  unfolding report
  close_pool path pop = do
    call (λ w. (tt {0}, lib.pmemobj_close pop w))
    print closed
    λ s. report (lib.pmemobj_check path layout s.world) s

  -- A `main` with `body` between the opening and the closing.
  unfoldable pub session : (lib.Pool → Example lib.Pool) → List Bytes → Example (Unit {0})
  session body argv = do
    path ← path_of argv
    pop ← open_pool path
    pop' ← body pop
    close_pool path pop'

  -- example/create_pool.c and example/declare_toid.c
  unfoldable pub create_pool_main : List Bytes → Example (Unit {0})
  create_pool_main = session λ pop. print nothing_yet >> pure pop

  unfoldable pub declare_toid_main : List Bytes → Example (Unit {0})
  declare_toid_main = session λ pop. print nothing_yet >> pure pop
