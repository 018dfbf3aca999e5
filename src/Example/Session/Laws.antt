-- ===== src/Example/Session/Laws.antt =====
-- What libpmemobj documents of opening and closing, and that no program leaves its pool open.
use mss_kv_lab.Base.{
  ℕ, zero, suc, ◌++◌, ◌≡◌, refl, ap, ◌∙◌, Bool, false, ◌||◌, ◌⊎◌, inl, inr, List, [], ◌∷◌, Bytes,
  bytes_eq, Option, none, some, arith, if◌then◌else◌,
}
use mss_kv_lab.Base.Int.{ℤ, pos, negsuc}
use mss_kv_lab.Base.Result.{Result, done, fault, exited}
use mss_kv_lab.Example.Program.{Process, and_then, ◌>>=◌}
use mss_kv_lab.Example.Session.{
  closed, Pools, layout, pool_size, all_may_write, Line, Example, report, created_or_exit,
  opened_or_created, path_of, open_pool, close_pool, session,
}

-- `is_open w path`: some handle is open on the path; `name_of pop`: the path of a handle.
pub record Documented (lib : Pools) : Type 0 where
  pub is_open : lib.Files → Bytes → Bool
  pub name_of : lib.Pool → Bytes
  pub opens :
      (path lay : Bytes) (w w' : lib.Files) (pop : lib.Pool)
      → lib.pmemobj_open path lay w ≡ (some pop, w')
      → (name_of pop ≡ path) × ((q : Bytes) → is_open w' q ≡ (bytes_eq path q || is_open w q))
  pub open_fails :
      (path lay : Bytes) (w w' : lib.Files)
      → lib.pmemobj_open path lay w ≡ (none, w')
      → (q : Bytes) → is_open w' q ≡ is_open w q
  pub creates :
      (path lay : Bytes) (size mode : ℕ) (w w' : lib.Files) (pop : lib.Pool)
      → lib.pmemobj_create path lay size mode w ≡ (some pop, w')
      → (name_of pop ≡ path) × ((q : Bytes) → is_open w' q ≡ (bytes_eq path q || is_open w q))
  pub create_fails :
      (path lay : Bytes) (size mode : ℕ) (w w' : lib.Files)
      → lib.pmemobj_create path lay size mode w ≡ (none, w')
      → (q : Bytes) → is_open w' q ≡ is_open w q
  pub closes :
      (pop : lib.Pool) (w : lib.Files) (q : Bytes)
      → is_open (lib.pmemobj_close pop w) q
        ≡ (if bytes_eq (name_of pop) q then false else is_open w q)

module _ (lib : Pools) (doc : Documented lib) where
  open doc use {is_open, name_of}

  abbrev pub AllClosed : lib.Files → Type 0
  AllClosed w = (q : Bytes) → is_open w q ≡ false

  abbrev pub OnlyOpen : Bytes → lib.Files → Type 0
  OnlyOpen path w = (q : Bytes) → is_open w q ≡ bytes_eq path q

  -- How `open_pool` ends.
  abbrev Opening : Bytes → Result lib.Pool × Process lib.Files Line → Type 0
  Opening path r =
      ((pop : lib.Pool) × (r.0 ≡ done pop) × (name_of pop ≡ path) × OnlyOpen path r.1.world)
      ⊎ ((r.0 ≡ fault (exited 1)) × AllClosed r.1.world)

  created-Opening :
      (path : Bytes) (s : Process lib.Files Line) (r : Option lib.Pool × lib.Files)
      → lib.pmemobj_create path layout pool_size all_may_write s.world ≡ r
      → AllClosed s.world
      → Opening path (created_or_exit lib r.0 (record s { world = r.1 }))
  unfolding created_or_exit
  created-Opening path s (none, w) e shut =
      inr (refl, λ q. doc.create_fails _ _ _ _ s.world w e q ∙ shut q)
  created-Opening path s (some pop, w) e shut =
      let (name, all) = doc.creates _ _ _ _ s.world w pop e in
      inl (pop, refl, name, λ q. ground (arith, all q, shut q))

  opened-Opening :
      (path : Bytes) (s : Process lib.Files Line) (r : Option lib.Pool × lib.Files)
      → lib.pmemobj_open path layout s.world ≡ r
      → AllClosed s.world
      → Opening path (opened_or_created lib path r.0 (record s { world = r.1 }))
  unfolding opened_or_created
  opened-Opening path s (none, w) e shut =
      created-Opening path (record s { world = w }) _ refl
        (λ q. doc.open_fails _ _ s.world w e q ∙ shut q)
  opened-Opening path s (some pop, w) e shut =
      let (name, all) = doc.opens _ _ s.world w pop e in
      inl (pop, refl, name, λ q. ground (arith, all q, shut q))

  open_pool-Opening :
      (path : Bytes) (s : Process lib.Files Line)
      → AllClosed s.world
      → Opening path (open_pool lib path s)
  unfolding open_pool
  open_pool-Opening path s shut = opened-Opening path s _ refl shut

  -- A return of a program: its pool passed the check. Any other end is `exit(1)`.
  abbrev pub Ending : Option Bytes → Result (Unit {0}) × Process lib.Files Line → Type 0
  Ending given r =
      ((r.0 ≡ done tt)
        × (path : Bytes) × (given ≡ some path)
        × (lib.pmemobj_check path layout r.1.world ≡ pos 1))
      ⊎ (r.0 ≡ fault (exited 1))

  report-Ending :
      (path : Bytes) (n : ℤ) (s : Process lib.Files Line)
      → lib.pmemobj_check path layout s.world ≡ n
      → ((report lib n s).1.world ≡ s.world) × Ending (some path) (report lib n s)
  unfolding report
  report-Ending path (pos zero) s e = (refl, inr refl)
  report-Ending path (pos (suc zero)) s e = (refl, inl (refl, path, refl, e))
  report-Ending path (pos (suc (suc n))) s e = (refl, inr refl)
  report-Ending path (negsuc n) s e = (refl, inr refl)

  close_pool-AllClosed :
      (path : Bytes) (pop : lib.Pool) (s : Process lib.Files Line)
      → name_of pop ≡ path
      → OnlyOpen path s.world
      → AllClosed (close_pool lib path pop s).1.world
        × Ending (some path) (close_pool lib path pop s)
  unfolding close_pool
  close_pool-AllClosed path pop s name only =
      let w = lib.pmemobj_close pop s.world in
      let s' : Process lib.Files Line = record {
        world = w;
        printed = s.printed ++ (closed ∷ []);
      } in
      let (same, ending) = report-Ending path (lib.pmemobj_check path layout w) s' refl in
      (λ q. ap (λ v. is_open v q) same ∙ ground (arith, doc.closes pop s.world q, only q), ending)

  abbrev pub path_in : List Bytes → Option Bytes
  path_in [] = none
  path_in (name ∷ []) = none
  path_in (name ∷ path ∷ rest) = some path

  -- A body that leaves the disk alone and works on one handle.
  abbrev pub Returns : (lib.Pool → Example lib lib.Pool) → Type 0
  Returns body =
      (pop : lib.Pool) (s : Process lib.Files Line)
      → (pop' : lib.Pool) × (s' : Process lib.Files Line) × (body pop s ≡ (done pop', s'))
        × (s'.world ≡ s.world)
        × (name_of pop' ≡ name_of pop)

  pub session-AllClosed :
      (body : lib.Pool → Example lib lib.Pool)
      → Returns body
      → (argv : List Bytes) (s : Process lib.Files Line) → AllClosed s.world
      → AllClosed (session lib body argv s).1.world
        × Ending (path_in argv) (session lib body argv s)
  unfolding session path_of
  session-AllClosed body returns [] s shut = (shut, inr refl)
  session-AllClosed body returns (name ∷ []) s shut = (shut, inr refl)
  session-AllClosed body returns (name ∷ path ∷ rest) s shut =
      go (open_pool lib path s) (open_pool-Opening path s shut)
    where
      go :
          (r : Result lib.Pool × Process lib.Files Line)
          → Opening path r
          → let end = and_then r (λ pop. body pop >>= close_pool lib path) in
            AllClosed end.1.world × Ending (some path) end
      go (done pop, s1) (inl (pop1, e, name, only)) =
          let (pop', s2, f, same, name') = returns pop s1 in
          let is_pop : pop ≡ pop1 = cc e in
          rw f (
            close_pool-AllClosed path pop' s2 (name' ∙ (ap name_of is_pop ∙ name))
              (λ q. ap (λ w. is_open w q) same ∙ only q))
      go (done pop, s1) (inr (e, shut')) = cc e
      go (fault x, s1) (inl (pop1, e, name, only)) = cc e
      go (fault x, s1) (inr (e, shut')) = (shut', inr (ap fault (cc e)))
