-- ===== src/Kv/Pmemkv/Opening.antt =====
-- What `pmkv_open` of src/pmemkv.c asks of the library.
use mss_kv_lab.Base.{
  ℕ, ◌≡◌, ◌≢◌, refl, ap, ◌∙◌, ◌⊎◌, inl, inr, Option, none, some, Bool-cases, ◌==◌, Bytes, bytes_eq,
  codes, if◌then◌else◌, arith,
}
use mss_kv_lab.Base.Result.{done, >>=-eq-ok}
use mathlib.Core.Path.{subst}
use mss_kv_lab.Kv.Pmemkv.{Libpmemkv, status_ok, pmkv_open, assert_config, assert_ok, opened_db}

-- The documentation of libpmemkv_config(3): `number` and `text` are what a configuration holds
-- under a key.
pub record Configured (lib : Libpmemkv) : Type 0 where
  pub number : lib.Config → Bytes → Option ℕ
  pub text : lib.Config → Bytes → Option Bytes
  pub string_text :
      (c : lib.Config) (key other value : Bytes)
      → (lib.pmemkv_config_put_string c key value).0 ≡ status_ok
      → text (lib.pmemkv_config_put_string c key value).1 other
        ≡ (if bytes_eq key other then some value else text c other)
  pub uint64_number :
      (c : lib.Config) (key other : Bytes) (n : ℕ)
      → (lib.pmemkv_config_put_uint64 c key n).0 ≡ status_ok
      → number (lib.pmemkv_config_put_uint64 c key n).1 other
        ≡ (if bytes_eq key other then some n else number c other)
  pub uint64_text :
      (c : lib.Config) (key other : Bytes) (n : ℕ)
      → (lib.pmemkv_config_put_uint64 c key n).0 ≡ status_ok
      → text (lib.pmemkv_config_put_uint64 c key n).1 other ≡ text c other

module _ (lib : Libpmemkv) (conf : Configured lib) where
  open conf use {number, text}

  assert_ok-eq :
      (r : ℕ × lib.Config) (c : lib.Config)
      → assert_ok lib r ≡ done c
      → (r.0 ≡ status_ok) × (c ≡ r.1)
  unfolding assert_ok
  assert_ok-eq r c h = (ground arith, ground arith)

  -- How `pmkv_open` ends once it has its configuration c: with the pool that the library opened,
  -- or with a null pointer.
  pub OpenedBy : lib.Config → lib.Files → Option lib.Db × lib.Files → Type 0
  OpenedBy c w r =
      let o = lib.pmemkv_open (codes "cmap") c w in
      (((o.0 ≡ status_ok) × (r.0 ≡ o.1)) ⊎ ((o.0 ≢ status_ok) × (r.0 ≡ none))) × (r.1 ≡ o.2)

  opened_db-OpenedBy :
      (c : lib.Config) (w : lib.Files)
      → OpenedBy c w (opened_db lib (lib.pmemkv_open (codes "cmap") c w))
  unfolding opened_db OpenedBy
  opened_db-OpenedBy c w = elim (Bool-cases ((lib.pmemkv_open (codes "cmap") c w).0 == status_ok)) [
    | inl e ↦ rw e (inl (ground (arith, e), refl), refl)
    | inr e ↦ rw e (inr (ground (arith, e), refl), refl)
  ]

  -- When `pmkv_open` returns, it has called `pmemkv_open` for the engine cmap, with a configuration
  -- that holds its path, its size and its flag `force_create` under the keys of these names; it
  -- returns the pool that was opened, and a null pointer when the library reports an error.
  pub pmkv_open_lem :
      (path : Bytes) (pool_size force_create : ℕ) (w : lib.Files) (r : Option lib.Db × lib.Files)
      → pmkv_open lib path pool_size force_create w ≡ done r
      → (c : lib.Config) × (text c (codes "path") ≡ some path)
        × (number c (codes "size") ≡ some pool_size)
        × (number c (codes "force_create") ≡ some force_create)
        × OpenedBy c w r
  unfolding pmkv_open
  pmkv_open_lem path pool_size force_create w r h =
      let (c0, made, h0) = >>=-eq-ok (assert_config lib lib.pmemkv_config_new) _ h in
      let (c1, put1, h1) =
        >>=-eq-ok (assert_ok lib (lib.pmemkv_config_put_string c0 (codes "path") path)) _ h0 in
      let (c2, put2, h2) =
        >>=-eq-ok (assert_ok lib (lib.pmemkv_config_put_uint64 c1 (codes "size") pool_size)) _ h1 in
      let (c3, put3, h3) =
        >>=-eq-ok
          (assert_ok lib (lib.pmemkv_config_put_uint64 c2 (codes "force_create") force_create)) _
          h2 in
      let (ok1, is1) = assert_ok-eq _ c1 put1 in
      let (ok2, is2) = assert_ok-eq _ c2 put2 in
      let (ok3, is3) = assert_ok-eq _ c3 put3 in
      let same : opened_db lib (lib.pmemkv_open (codes "cmap") c3 w) ≡ r = cc h3 in
      (
        c3,
        ap (λ c. text c (codes "path")) is3
            ∙ conf.uint64_text c2 (codes "force_create") (codes "path") force_create ok3
            ∙ ap (λ c. text c (codes "path")) is2
            ∙ conf.uint64_text c1 (codes "size") (codes "path") pool_size ok2
            ∙ ap (λ c. text c (codes "path")) is1
            ∙ conf.string_text c0 (codes "path") (codes "path") path ok1,
        ap (λ c. number c (codes "size")) is3
            ∙ conf.uint64_number c2 (codes "force_create") (codes "size") force_create ok3
            ∙ ap (λ c. number c (codes "size")) is2
            ∙ conf.uint64_number c1 (codes "size") (codes "size") pool_size ok2,
        ap (λ c. number c (codes "force_create")) is3
            ∙ conf.uint64_number c2 (codes "force_create") (codes "force_create") force_create ok3,
        subst (λ x. OpenedBy c3 w x) same (opened_db-OpenedBy c3 w),
      )
