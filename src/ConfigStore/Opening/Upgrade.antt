-- ===== src/ConfigStore/Opening/Upgrade.antt =====
-- What `Open` of internal/configstore/store.go leaves in the database.
use fbs_interlock_gateway.Text.{Text}
use fbs_interlock_gateway.Prelude.{
  Bool-cases, pos, ltb_ℤ, eqb_ℤ, eqb_ℤ_iff, err, ◌≡◌, refl, ◌⊎◌, inl, inr, true, false, arith, ℤ,
  Result, ok, ◌||◌, Option,
}
use fbs_interlock_gateway.ConfigStore.Opening.{
  schema_version, Catalog, OpenError, version_unread, schema_too_new, OpenFaults, Opened, migration,
  committed, migrate, begin_failed, create_failed, version_unset, commit_failed, checked, prepared,
  before_migration, open_store,
}

-- The schema was not touched, or it was created in a database that had none.
abbrev pub KeptOrCreated : Catalog → Catalog → Type 0
KeptOrCreated c c' =
    (c' ≡ c)
    ⊎ ((c.user_version ≡ pos 0)
        × (c.has_tables ≡ false)
        × (c' ≡ record { user_version = pos 1; has_tables = true }))

-- An error, or a database of version 1, or one whose version was negative.
abbrev pub FailedOrReady : Opened → Catalog → Type 0
FailedOrReady (result, c') c =
    ((e : OpenError) × (result ≡ err e))
    ⊎ (c'.user_version ≡ pos 1)
    ⊎ (ltb_ℤ c.user_version (pos 0) ≡ true)

-- A version that is neither new nor 0 nor 1 is negative.
negative :
    (v : ℤ)
    → ltb_ℤ (pos 1) v ≡ false
    → eqb_ℤ v (pos 1) ≡ false
    → eqb_ℤ v (pos 0) ≡ false
    → ltb_ℤ v (pos 0) ≡ true
negative v a b c = ground (arith, a, b, c)

created :
    (f : OpenFaults) (c : Catalog)
    → eqb_ℤ c.user_version (pos 0) ≡ true
    → KeptOrCreated c (committed (migration f c) c).1
      × FailedOrReady (committed (migration f c) c) c
unfolding migration committed
created f c fresh = elim (Bool-cases f.begin) [
  | inl b ↦ simp (b) (inl refl, inl (begin_failed, refl))
  | inr b ↦ elim (Bool-cases (f.create || c.has_tables)) [
    | inl t ↦ simp (b, fresh, t) (inl refl, inl (create_failed, refl))
    | inr t ↦ elim (Bool-cases f.set_version) [
      | inl w ↦ simp (b, fresh, t, w) (inl refl, inl (version_unset, refl))
      | inr w ↦ elim (Bool-cases f.commit) [
        | inl d ↦ simp (b, fresh, t, w, d) (inl refl, inl (commit_failed, refl))
        | inr d ↦
            simp (b, fresh, t, w, d)
              (inr ((eqb_ℤ_iff _ _).0 fresh, ground (arith, t), refl), inr (inl refl))
      ]
    ]
  ]
]

passed_by :
    (f : OpenFaults) (c : Catalog)
    → eqb_ℤ c.user_version (pos 0) ≡ false
    → ltb_ℤ c.user_version (pos 0) ≡ true
    → KeptOrCreated c (committed (migration f c) c).1
      × FailedOrReady (committed (migration f c) c) c
unfolding migration committed
passed_by f c fresh n = elim (Bool-cases f.begin) [
  | inl b ↦ simp (b) (inl refl, inr (inr n))
  | inr b ↦ elim (Bool-cases f.commit) [
    | inl d ↦ simp (b, fresh, d) (inl refl, inr (inr n))
    | inr d ↦ simp (b, fresh, d) (inl refl, inr (inr n))
  ]
]

migration-cases :
    (f : OpenFaults) (c : Catalog)
    → ltb_ℤ schema_version c.user_version ≡ false
    → eqb_ℤ c.user_version schema_version ≡ false
    → KeptOrCreated c (committed (migration f c) c).1
      × FailedOrReady (committed (migration f c) c) c
migration-cases f c old other = elim (Bool-cases (eqb_ℤ c.user_version (pos 0))) [
  | inl fresh ↦ created f c fresh
  | inr fresh ↦ passed_by f c fresh (negative c.user_version old other fresh)
]

migrate-cases :
    (f : OpenFaults) (c : Catalog) → KeptOrCreated c (migrate f c).1 × FailedOrReady (migrate f c) c
unfolding migrate
migrate-cases f c = elim (Bool-cases f.version) [
  | inl v ↦ simp v (inl refl, inl (version_unread, refl))
  | inr v ↦ elim (Bool-cases (ltb_ℤ schema_version c.user_version)) [
    | inl n ↦ simp (v, n) (inl refl, inl (schema_too_new c.user_version, refl))
    | inr n ↦ elim (Bool-cases (eqb_ℤ c.user_version schema_version)) [
      | inl e ↦ simp (v, n, e) (inl refl, inr (inl ((eqb_ℤ_iff _ _).0 e)))
      | inr e ↦ simp (v, n, e) (migration-cases f c n e)
    ]
  ]
]

checked-cases :
    (answer : Option Text) (o : Opened) (c : Catalog)
    → KeptOrCreated c o.1 × FailedOrReady o c
    → KeptOrCreated c (checked answer o).1 × FailedOrReady (checked answer o) c
unfolding checked
checked-cases answer (err e, c') c h = h
checked-cases answer (ok _, c') c (k, inl (e, failed)) = cc
checked-cases answer (ok _, c') c (k, inr ready) = (k, inr ready)

prepared-cases :
    (f : OpenFaults) (r : Result OpenError (Unit {0})) (c : Catalog)
    → KeptOrCreated c (prepared f r c).1 × FailedOrReady (prepared f r c) c
unfolding prepared
prepared-cases f (err e) c = (inl refl, inl (e, refl))
prepared-cases f (ok _) c = checked-cases f.quick_check (migrate f c) c (migrate-cases f c)

-- Whichever calls fail, opening a database keeps its schema or creates version 1 in a database of
-- version 0 without tables; and it fails, or leaves version 1, or the version was negative.
pub open_store_safe :
    (f : OpenFaults) (path : Text) (c : Catalog)
    → KeptOrCreated c (open_store f path c).1 × FailedOrReady (open_store f path c) c
unfolding open_store
open_store_safe f path c = prepared-cases f (before_migration f path) c
