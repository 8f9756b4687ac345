-- ===== src/Startup/Commands/Import.antt =====
-- `config import` of cmd/fbs-interlock-gateway/main.go.
use fbs_interlock_gateway.Prelude.{
  length, Result, ok, err, wrap_err, >>=-eq-ok, fail_if-eq-ok, ok-injective, ◌≡◌, refl, sym, ap,
  ◌∙◌, ◌⊎◌, inl, inr, true, List, wrap_err-eq-ok,
}
use fbs_interlock_gateway.Text.{Text}
use fbs_interlock_gateway.Dict.{int_key, text_key}
use fbs_interlock_gateway.Files.{FileSystem}
use fbs_interlock_gateway.Config.{Config, apply_defaults, validate}
use fbs_interlock_gateway.Config.Files.{load_file}
use fbs_interlock_gateway.ConfigStore.{Faults, Disk, replace_config, load, replace}
use fbs_interlock_gateway.ConfigStore.Schema.{StoreError}
use fbs_interlock_gateway.ConfigStore.RoundTrip.{stored_config}
use fbs_interlock_gateway.ConfigStore.Loading.{apply_defaults_idem, load-replace}
use fbs_interlock_gateway.ConfigStore.Identity.{replace_outcome}
use fbs_interlock_gateway.ConfigStore.Opening.{Catalog, Opened, open_store}
use fbs_interlock_gateway.Startup.Commands.{
  CommandError, ImportFlags, Shell, Calls, Database, Imported, import_replaced, import_opened,
  import_with, import_flags, import_config, read_input, input_invalid, run_config_import,
  import_database_failed, open_database_failed, input_unreadable,
}

-- The database keeps its tables after an error; after a success the next `Load` finds this.
abbrev pub KeptOrLoads : Config → Disk → Imported → Type 0
KeptOrLoads raw disk (result, d) =
    ((e : CommandError) × (result ≡ err e) × (d.disk ≡ disk))
    ⊎ ((result ≡ ok (length raw.tools))
        × (load d.disk.db ≡ ok (stored_config (apply_defaults raw))))

import_replaced-cases :
    (raw : Config) (catalog : Catalog) (disk : Disk) (r : Result StoreError (Unit {0}))
    (disk' : Disk)
    → ((e : StoreError) × (r ≡ err e) × (disk' ≡ disk)) ⊎ (r ≡ ok tt)
    → (r ≡ ok tt → load disk'.db ≡ ok (stored_config (apply_defaults raw)))
    → KeptOrLoads raw disk (import_replaced (apply_defaults raw) catalog (r, disk'))
unfolding import_replaced apply_defaults
import_replaced-cases raw catalog disk (err e) disk' (inl (_, _, same)) seen =
    inl (import_database_failed e, refl, same)
import_replaced-cases raw catalog disk (err e) disk' (inr h) seen = cc
import_replaced-cases raw catalog disk (ok _) disk' h seen = inr (refl, seen refl)

replaced_cases :
    (faults : Faults) (path now : Text) (raw : Config) (catalog : Catalog) (disk : Disk)
    → KeptOrLoads raw disk (
        import_replaced
          (apply_defaults raw)
          catalog
          (replace_config faults path now (apply_defaults raw) disk))
unfolding replace_config
replaced_cases faults path now raw catalog disk =
    import_replaced-cases raw catalog disk
      (replace faults path now (apply_defaults raw) true disk).0
      (replace faults path now (apply_defaults raw) true disk).1
      (elim (replace_outcome faults path now (apply_defaults raw) true disk) [
        | inl failed ↦ inl failed
        | inr (done, _) ↦ inr done
      ])
      (λ done.
        load-replace faults path now (apply_defaults raw) true disk done
        ∙ ap (λ c. ok (stored_config c)) (apply_defaults_idem raw))

import_opened-cases :
    (calls : Calls) (now : Text) (flags : ImportFlags) (raw : Config) (o : Opened) (disk : Disk)
    → KeptOrLoads raw disk (import_opened calls now flags (apply_defaults raw) o disk)
unfolding import_opened
import_opened-cases calls now flags raw (err e, catalog) disk =
    inl (open_database_failed e, refl, refl)
import_opened-cases calls now flags raw (ok _, catalog) disk =
    replaced_cases _ flags.mirror_config now raw catalog disk

-- What a successful import read.
abbrev pub Read : Shell → Calls → ImportFlags → FileSystem → Config → Type 0
Read sh calls flags fs raw =
    (load_file sh.yaml sh.paths calls.read_input flags.input fs ≡ ok raw)
    × (validate (apply_defaults raw) ≡ ok tt)

read_input-ok :
    (sh : Shell) (calls : Calls) (flags : ImportFlags) (fs : FileSystem) {cfg : Config}
    → read_input sh calls flags fs ≡ ok cfg
    → (raw : Config) × Read sh calls flags fs raw × (cfg ≡ apply_defaults raw)
unfolding read_input
read_input-ok sh calls flags fs h =
    let (_, h1) = fail_if-eq-ok _ _ _ h in
    let (raw, found, h2) = >>=-eq-ok (wrap_err input_unreadable _) _ h1 in
    let (_, valid, h3) = >>=-eq-ok (wrap_err input_invalid (validate (apply_defaults raw))) _ h2 in
    (raw, (wrap_err-eq-ok _ _ found, wrap_err-eq-ok _ _ valid), sym (ok-injective h3))

import_config-cases :
    (sh : Shell) (calls : Calls) (now : Text) (flags : ImportFlags) (fs : FileSystem)
    (r : Result CommandError Config) (d : Database)
    → read_input sh calls flags fs ≡ r
    → ((e : CommandError) × (r ≡ err e) × (import_config sh calls now flags r d ≡ (err e, d)))
      ⊎ ((raw : Config) × Read sh calls flags fs raw
          × KeptOrLoads raw d.disk (import_config sh calls now flags r d))
unfolding import_config
import_config-cases sh calls now flags fs (err e) d h = inl (e, refl, refl)
import_config-cases sh calls now flags fs (ok cfg) d h =
    let (raw, read, same) = read_input-ok sh calls flags fs h in
    inr (
      raw,
      read,
      rw same (
          import_opened-cases calls now flags raw (open_store calls.opening flags.db d.catalog)
            d.disk),
    )

-- The command fails and keeps the tables, or it read a configuration, which is valid with its
-- defaults, it reports the number of its tools, and the next `Load` of the database finds it as the
-- store keeps it, with its defaults.
pub run_config_import_outcome :
    (sh : Shell) (calls : Calls) (now : Text) (args : List Text) (flags : ImportFlags)
    (fs : FileSystem) (d : Database)
    → import_flags sh args ≡ ok flags
    → let (result, d') = run_config_import sh calls now args fs d in
      ((e : CommandError) × (result ≡ err e) × (d'.disk ≡ d.disk))
      ⊎ ((raw : Config) × Read sh calls flags fs raw
          × (result ≡ ok (length raw.tools))
          × (load d'.disk.db ≡ ok (stored_config (apply_defaults raw))))
unfolding run_config_import import_with
run_config_import_outcome sh calls now args flags fs d parsed =
    rw parsed
      (elim (import_config-cases sh calls now flags fs (read_input sh calls flags fs) d refl) [
        | inl (e, _, same) ↦ rw same (inl (e, refl, refl))
        | inr (raw, read, inl kept) ↦ inl kept
        | inr (raw, read, inr (count, seen)) ↦ inr (raw, read, count, seen)
      ])
