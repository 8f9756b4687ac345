-- ===== src/Startup/Commands/Export.antt =====
-- `config export` of cmd/fbs-interlock-gateway/main.go.
use mathlib.Core.Path.{fun_ext}
use fbs_interlock_gateway.Prelude.{
  leb, Bool-cases, ◌≡◌, refl, ap, ◌∙◌, inl, inr, Bool, false, Option, none, some, List, [], ◌∷◌,
  map, Result, ok, err, ◌>>=◌, true, not, ◌>>◌, wrap_err, sym, ◌≢◌,
}
use fbs_interlock_gateway.Text.{Text}
use fbs_interlock_gateway.Config.{
  Tool, Config, clone_tool, apply_defaults, tool_protocol, validate_tool_protocol, validate_tool,
  https_required, validate_tls_config, SeenPorts, claim_port, validate_loop, validate,
  duplicate_port, clone_string, Check, clone,
}
use fbs_interlock_gateway.ConfigStore.{
  tool_of_row, place_row, by_sort_order, load_settings, config_of, load,
}
use fbs_interlock_gateway.ConfigStore.Schema.{Row, Db, Settings, database_invalid}
use fbs_interlock_gateway.Startup.Commands.{
  CommandError, load_database_failed, ExportFlags, Shell, Calls, Database, write_absolute,
  write_private_atomic, Exported, deliver, load_tables, export_config, export_opened, export_with,
  export_flags, run_config_export,
}
use fbs_interlock_gateway.Files.{FileSystem, folder_failed, TempFaults}
use fbs_interlock_gateway.Files.Atomic.{gave_up, IsAtomic, IsAtomic-of_Course, through_temp-Course}
use fbs_interlock_gateway.ConfigStore.Opening.{Catalog, Opened, open_store}
use fbs_interlock_gateway.Config.Files.{Paths}
use fbs_interlock_gateway.Startup.{redact_tool, redact, redact_config_secrets}

-- Another password in place of each one.
abbrev pub reset_password : (Text → Text) → Option Text → Option Text
reset_password other none = none
reset_password other (some password) = some (other password)

abbrev redact_as : Tool → Option Text → Tool
redact_as t p = record t { username = clone_string t.username; password = p }

abbrev redacted_load : {E : Type 0} → Result E Config → Result E Config
redacted_load (ok cfg) = ok (redact_config_secrets cfg)
redacted_load (err e) = err e

redacted-wrap_err :
    {E F : Type 0} (f : E → F) (r : Result E Config)
    → redacted_load (wrap_err f r) ≡ wrap_err f (redacted_load r)
redacted-wrap_err f (ok cfg) = refl
redacted-wrap_err f (err e) = refl

abbrev exported : Shell → Calls → Text → ExportFlags → Result CommandError Config → Exported
unfolding deliver
exported sh calls temp flags (err e) = (err e, [], [])
exported sh calls temp flags (ok cfg) = deliver sh calls temp flags.output (sh.yaml.marshal cfg)

-- With the flag, an export sees the configuration with its passwords hidden.
export_config-hidden :
    (sh : Shell) (calls : Calls) (temp : Text) (flags : ExportFlags)
    (r : Result CommandError Config)
    → flags.redact_secrets ≡ true
    → export_config sh calls temp flags r ≡ exported sh calls temp flags (redacted_load r)
unfolding export_config
export_config-hidden sh calls temp flags (err e) hidden = refl
export_config-hidden sh calls temp flags (ok cfg) hidden = rw hidden refl

module _ (other : Text → Text) where
  abbrev pub reset_row : Row → Row
  reset_row r = record r { password = reset_password other r.password }

  abbrev pub reset_passwords : Db → Db
  reset_passwords db = record db { tools = map reset_row db.tools }

  abbrev reset_tool : Tool → Tool
  reset_tool t = record t { password = reset_password other t.password }

  abbrev reset_config : Config → Config
  reset_config cfg = record cfg { tools = map reset_tool cfg.tools }

  redact-reset :
      (o : Option Text) → redact (clone_string (reset_password other o)) ≡ redact (clone_string o)
  unfolding redact clone_string
  redact-reset none = refl
  redact-reset (some password) = refl

  redact_tool-reset :
      (t : Tool) → redact_tool (clone_tool (reset_tool t)) ≡ redact_tool (clone_tool t)
  unfolding redact_tool clone_tool
  redact_tool-reset t = ap (λ (p : Option Text). redact_as t p) (redact-reset t.password)

  place_row-reset :
      (r : Row) (rows : List Row)
      → place_row (reset_row r) (map reset_row rows) ≡ map reset_row (place_row r rows)
  unfolding place_row
  place_row-reset r [] = refl
  place_row-reset r (s ∷ rows) = elim (Bool-cases (leb r.sort_order s.sort_order)) [
    | inl h ↦ rw h refl
    | inr h ↦ simp (h, place_row-reset r rows)
  ]

  by_sort_order-reset :
      (rows : List Row) → by_sort_order (map reset_row rows) ≡ map reset_row (by_sort_order rows)
  unfolding by_sort_order
  by_sort_order-reset [] = refl
  by_sort_order-reset (r ∷ rows) =
      ap (place_row (reset_row r)) (by_sort_order-reset rows)
      ∙ place_row-reset r (by_sort_order rows)

  map-tool_of_row-reset :
      (rows : List Row)
      → map tool_of_row (map reset_row rows) ≡ map reset_tool (map tool_of_row rows)
  unfolding tool_of_row
  map-tool_of_row-reset [] = refl
  map-tool_of_row-reset (r ∷ rows) =
      ap (λ ts. reset_tool (tool_of_row r) ∷ ts) (map-tool_of_row-reset rows)

  validate_loop-reset :
      (seen : SeenPorts) (ts : List Tool)
      → validate_loop seen (map reset_tool ts) ≡ validate_loop seen ts
  unfolding validate_loop claim_port validate_tool validate_tool_protocol tool_protocol
  validate_loop-reset seen [] = refl
  validate_loop-reset seen (t ∷ ts) =
      ap (λ k. claim_port duplicate_port seen t >>= k) (fun_ext (λ s. validate_loop-reset s ts))

  https_required-reset :
      (only : Bool) (ts : List Tool)
      → https_required only (map reset_tool ts) ≡ https_required only ts
  unfolding https_required tool_protocol
  https_required-reset only [] = refl
  https_required-reset only (t ∷ ts) = rw (https_required-reset only ts) refl

  redacted :
      (ts : List Tool)
      → map redact_tool (map clone_tool (map reset_tool ts)) ≡ map redact_tool (map clone_tool ts)
  redacted [] = refl
  redacted (t ∷ ts) = rw (redact_tool-reset t, redacted ts) refl

  validate-reset :
      (cfg : Config) → validate (apply_defaults (reset_config cfg)) ≡ validate (apply_defaults cfg)
  unfolding validate apply_defaults validate_tls_config
  validate-reset cfg =
      rw (validate_loop-reset [] cfg.tools, https_required-reset false cfg.tools) refl

  config_of-reset :
      (s : Settings) (rows : List Row)
      → config_of s (map reset_row rows) ≡ reset_config (config_of s rows)
  unfolding config_of
  config_of-reset s rows =
      rw (by_sort_order-reset rows, map-tool_of_row-reset (by_sort_order rows)) refl

  validated-reset :
      (v : Check) (cfg : Config)
      → redacted_load
          (wrap_err database_invalid v >> ok (clone (apply_defaults (reset_config cfg))))
        ≡ redacted_load (wrap_err database_invalid v >> ok (clone (apply_defaults cfg)))
  unfolding redact_config_secrets clone apply_defaults
  validated-reset (err e) cfg = refl
  validated-reset (ok _) cfg = rw (redacted cfg.tools) refl

  -- The loaded configuration, once its passwords are hidden.
  load_settings-reset :
      (o : Option Settings) (rows : List Row)
      → redacted_load (load_settings o (map reset_row rows)) ≡ redacted_load (load_settings o rows)
  unfolding load_settings
  load_settings-reset none rows = refl
  load_settings-reset (some s) rows =
      rw (config_of-reset s rows, validate-reset (config_of s rows))
        (validated-reset (validate (apply_defaults (config_of s rows))) (config_of s rows))

  load_tables-reset :
      (broken : Bool) (catalog : Catalog) (db : Db)
      → redacted_load (load_tables broken catalog (reset_passwords db))
        ≡ redacted_load (load_tables broken catalog db)
  unfolding load_tables load
  load_tables-reset broken catalog db = elim (Bool-cases broken) [
    | inl b ↦ simp b
    | inr b ↦ elim (Bool-cases (not catalog.has_tables)) [
      | inl t ↦ simp (b, t)
      | inr t ↦
          simp (b, t)
            (redacted-wrap_err load_database_failed _
              ∙ ap (wrap_err load_database_failed) (load_settings-reset db.settings db.tools)
              ∙ sym (redacted-wrap_err load_database_failed _))
    ]
  ]

  export_opened-reset :
      (sh : Shell) (calls : Calls) (temp : Text) (flags : ExportFlags) (o : Opened) (db : Db)
      → flags.redact_secrets ≡ true
      → export_opened sh calls temp flags o (reset_passwords db)
        ≡ export_opened sh calls temp flags o db
  unfolding export_opened
  export_opened-reset sh calls temp flags (err e, catalog) db hidden = refl
  export_opened-reset sh calls temp flags (ok _, catalog) db hidden =
      rw
        (
          export_config-hidden sh calls temp flags
              (load_tables calls.load catalog (reset_passwords db)) hidden,
          export_config-hidden sh calls temp flags (load_tables calls.load catalog db) hidden,
          load_tables-reset calls.load catalog db,
        )
        refl

  -- With `-redact-secrets`, what the command exports, prints and returns does not depend on the
  -- passwords in the database.
  pub run_config_export-reset_passwords :
      (sh : Shell) (calls : Calls) (temp : Text) (args : List Text) (d : Database)
      (flags : ExportFlags)
      → export_flags sh args ≡ ok flags
      → flags.redact_secrets ≡ true
      → run_config_export sh calls temp args
          (record d { disk = record d.disk { db = reset_passwords d.disk.db } })
        ≡ run_config_export sh calls temp args d
  unfolding run_config_export export_with
  run_config_export-reset_passwords sh calls temp args d flags parsed hidden = rw parsed (
      export_opened-reset sh calls temp flags (open_store calls.opening flags.db d.catalog)
        d.disk.db hidden)

some-injective : {a b : Text} → some a ≡ some b → a ≡ b
some-injective h = cc

write_absolute-IsAtomic :
    (f : TempFaults) (temp content : Text) (o : Option Text) (path : Text) (fs : FileSystem)
    → o ≡ some path
    → temp ≢ path
    → IsAtomic path content fs (write_absolute f temp o content)
unfolding write_absolute
write_absolute-IsAtomic f temp content none path fs e other = cc
write_absolute-IsAtomic f temp content (some p) path fs e other = elim (Bool-cases f.folder) [
  | inl g ↦ simp g (IsAtomic-of_Course (gave_up folder_failed refl tt))
  | inr g ↦ simp g (
      rw (some-injective e) (IsAtomic-of_Course (through_temp-Course temp path content other f fs)))
]

-- Whichever calls fail, and whenever the program stops: the file of an export has its old content or
-- the new one at every moment, in the end the new one after a success and the old one after an
-- error. The temporary file is another one.
pub write_private_atomic-IsAtomic :
    (paths : Paths) (f : TempFaults) (temp output path content : Text) (fs : FileSystem)
    → paths.absolute output ≡ some path
    → temp ≢ path
    → IsAtomic path content fs (write_private_atomic paths f temp output content)
unfolding write_private_atomic
write_private_atomic-IsAtomic paths f temp output path content fs e other =
    write_absolute-IsAtomic f temp content (paths.absolute output) path fs e other
