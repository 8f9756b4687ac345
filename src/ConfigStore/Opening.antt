-- ===== src/ConfigStore/Opening.antt =====
-- `Open`, `configure`, `migrate` and `QuickCheck` of internal/configstore/store.go. Of the database
-- this reads the version of its schema and whether it has the tables; a migration that is not
-- committed leaves both as they were. Which calls of the operating system and of SQLite fail is an
-- argument.
pub mod Upgrade
use fbs_interlock_gateway.Prelude.{
  if◌then◌else◌, ℤ, pos, ltb_ℤ, eqb_ℤ, Result, ok, err, ◌>>=◌, ◌>>◌, fail_if, Bool, true, false,
  not, ◌&&◌, ◌||◌, Option, none, some, List, [], ◌∷◌,
}
use fbs_interlock_gateway.Text.{Text, codes, is_empty, trim_space, text_eq}

abbrev pub schema_version : ℤ
schema_version = pos 1

pub record Catalog : Type 0 where
  pub user_version : ℤ
  pub has_tables : Bool

pub data OpenError : Type 0 where
  path_required path_unresolved folder_failed open_failed : OpenError
  configure_failed version_unread : OpenError
  schema_too_new : ℤ → OpenError
  begin_failed create_failed version_unset commit_failed : OpenError
  quick_check_unread quick_check_failed : OpenError

pub record OpenFaults : Type 0 where
  pub absolute : Bool
  pub folder : Bool
  pub driver : Bool
  pub pragmas : List Bool  -- of the four statements of `configure`
  pub version : Bool
  pub begin : Bool
  pub create : Bool
  pub set_version : Bool
  pub commit : Bool
  pub quick_check : Option Text  -- its answer, none for an error

abbrev pub no_open_faults : OpenFaults
no_open_faults = record {
  absolute = false;
  folder = false;
  driver = false;
  pragmas = [];
  version = false;
  begin = false;
  create = false;
  set_version = false;
  commit = false;
  quick_check = some (codes "ok");
}

abbrev pub Opened : Type 0
Opened = Result OpenError (Unit {0}) × Catalog

configure : List Bool → Result OpenError (Unit {0})
configure [] = ok tt
configure (true ∷ fs) = err configure_failed
configure (false ∷ fs) = configure fs

-- The statements of the transaction on a database of this version.
migration : OpenFaults → Catalog → Result OpenError Catalog
migration f c = do
  fail_if f.begin begin_failed
  let fresh = eqb_ℤ c.user_version (pos 0)
  fail_if (fresh && (f.create || c.has_tables)) create_failed
  fail_if (fresh && f.set_version) version_unset
  fail_if f.commit commit_failed
  ok (if fresh then record { user_version = pos 1; has_tables = true } else c)

committed : Result OpenError Catalog → Catalog → Opened
committed (ok c') c = (ok tt, c')
committed (err e) c = (err e, c)

unfoldable pub migrate : OpenFaults → Catalog → Opened
unfolding committed migration
migrate f c =
    if f.version
    then (err version_unread, c)
    else if ltb_ℤ schema_version c.user_version
    then (err (schema_too_new c.user_version), c)
    else if eqb_ℤ c.user_version schema_version
    then (ok tt, c)
    else committed (migration f c) c

quick_check : Option Text → Result OpenError (Unit {0})
quick_check none = err quick_check_unread
quick_check (some answer) = fail_if (not (text_eq answer (codes "ok"))) quick_check_failed

checked : Option Text → Opened → Opened
unfolding quick_check
checked answer (err e, c) = (err e, c)
checked answer (ok _, c) = (quick_check answer, c)

prepared : OpenFaults → Result OpenError (Unit {0}) → Catalog → Opened
unfolding checked
prepared f (err e) c = (err e, c)
prepared f (ok _) c = checked f.quick_check (migrate f c)

before_migration : OpenFaults → Text → Result OpenError (Unit {0})
unfolding configure
before_migration f path = do
  fail_if (is_empty (trim_space path)) path_required
  fail_if f.absolute path_unresolved
  fail_if f.folder folder_failed
  fail_if f.driver open_failed
  configure f.pragmas

unfoldable pub open_store : OpenFaults → Text → Catalog → Opened
unfolding before_migration prepared
open_store f path c = prepared f (before_migration f path) c
