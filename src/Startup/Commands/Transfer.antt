-- ===== src/Startup/Commands/Transfer.antt =====
-- `config export` to a file and `config import` of that file, in cmd/fbs-interlock-gateway/main.go.
use fbs_interlock_gateway.Prelude.{
  Result, ok, err, fail_if-eq-ok, not_err, ◌≡◌, refl, ◌≢◌, inl, inr, Bool, false, Option, none,
  some, List, ◌++◌, wrap_err-eq-ok, length, ok-injective, ℕ, sym, ap, ◌∙◌, true, not,
}
use fbs_interlock_gateway.Text.{Text, codes, text_eq}
use fbs_interlock_gateway.Dict.{int_key, text_key, lookup}
use fbs_interlock_gateway.Files.{FileSystem, file_steps, Written}
use fbs_interlock_gateway.Files.Atomic.{IsAtomic}
use fbs_interlock_gateway.Config.{Config, apply_defaults}
use fbs_interlock_gateway.Config.Files.{unreadable, load_file, resolve_tls}
use fbs_interlock_gateway.ConfigStore.{load}
use fbs_interlock_gateway.ConfigStore.Schema.{Db}
use fbs_interlock_gateway.ConfigStore.RoundTrip.{stored_config}
use fbs_interlock_gateway.ConfigStore.Opening.{Catalog, Opened, open_store}
use fbs_interlock_gateway.Startup.Commands.{
  database_unread, no_tables, load_database_failed, CommandError, ExportFlags, ImportFlags, Shell,
  Calls, Database, exported_file, deliver, load_tables, export_config, export_opened, export_with,
  export_flags, import_flags, run_config_export, run_config_import, export_header,
}
use fbs_interlock_gateway.Startup.Commands.Import.{run_config_import_outcome}
use fbs_interlock_gateway.Startup.Commands.Export.{write_private_atomic-IsAtomic}

-- What the file holds that a successful export wrote.
abbrev pub Holds : Shell → Text → Db → FileSystem → Type 0
Holds sh path db fs =
    (cfg : Config) × (body : Text) × (load db ≡ ok cfg)
    × (sh.yaml.marshal cfg ≡ some body)
    × (lookup path fs ≡ some (export_header ++ body))

load_tables-ok :
    (broken : Bool) (catalog : Catalog) (db : Db) {cfg : Config}
    → load_tables broken catalog db ≡ ok cfg
    → load db ≡ ok cfg
unfolding load_tables
load_tables-ok broken catalog db h =
    let (_, h1) = fail_if-eq-ok broken database_unread _ h in
    let (_, h2) = fail_if-eq-ok (not catalog.has_tables) no_tables _ h1 in
    wrap_err-eq-ok load_database_failed (load db) h2

module _ (sh : Shell) (calls : Calls) (temp path : Text) (flags : ExportFlags)
    (plain : flags.redact_secrets ≡ false) (to_file : text_eq flags.output (codes "-") ≡ false)
    (resolved : sh.paths.absolute flags.output ≡ some path) (other : temp ≢ path) where
  exported_file-held :
      (w : Written) (content : Text) (fs : FileSystem)
      → IsAtomic path content fs w
      → (exported_file w).0 ≡ ok tt
      → lookup path (file_steps (exported_file w).2 fs) ≡ some content
  unfolding exported_file
  exported_file-held w content fs atomic done = elim atomic.at_end [
    | inl (_, held) ↦ held
    | inr (e, failed, _) ↦ absurd (not_err failed (wrap_err-eq-ok _ _ done))
  ]

  deliver-held :
      (o : Option Text) (fs : FileSystem)
      → (deliver sh calls temp flags.output o).0 ≡ ok tt
      → (body : Text) × (o ≡ some body)
        × (lookup path (file_steps (deliver sh calls temp flags.output o).2 fs)
            ≡ some (export_header ++ body))
  unfolding deliver
  deliver-held none fs done = cc
  deliver-held (some body) fs done = (
    body,
    refl,
    rw to_file (
        exported_file-held _ (export_header ++ body) fs
          (write_private_atomic-IsAtomic sh.paths calls.temp temp flags.output path
            (export_header ++ body) fs resolved other)
          (rw to_file at done)),
  )

  export_config-held :
      (r : Result CommandError Config) (fs : FileSystem)
      → (export_config sh calls temp flags r).0 ≡ ok tt
      → (cfg : Config) × (body : Text) × (r ≡ ok cfg)
        × (sh.yaml.marshal cfg ≡ some body)
        × (lookup path (file_steps (export_config sh calls temp flags r).2 fs)
            ≡ some (export_header ++ body))
  unfolding export_config
  export_config-held (err e) fs done = cc
  export_config-held (ok cfg) fs done =
      let (body, m, held) = deliver-held (sh.yaml.marshal cfg) fs (rw plain at done) in
      (cfg, body, refl, m, rw plain held)

  export_opened-held :
      (o : Opened) (db : Db) (fs : FileSystem)
      → (export_opened sh calls temp flags o db).0.0 ≡ ok tt
      → Holds sh path db (file_steps (export_opened sh calls temp flags o db).0.2 fs)
  unfolding export_opened
  export_opened-held (err e, catalog) db fs done = cc
  export_opened-held (ok _, catalog) db fs done =
      let (cfg, body, loaded, m, held) =
        export_config-held (load_tables calls.load catalog db) fs done in
      (cfg, body, load_tables-ok calls.load catalog db loaded, m, held)

  -- A successful export to a file leaves there the configuration of the database, as YAML under a
  -- line that says where it is from.
  pub run_config_export-Holds :
      (args : List Text) (d : Database) (fs : FileSystem)
      → export_flags sh args ≡ ok flags
      → (run_config_export sh calls temp args d).0.0 ≡ ok tt
      → Holds sh path d.disk.db (file_steps (run_config_export sh calls temp args d).0.2 fs)
  unfolding run_config_export export_with
  run_config_export-Holds args d fs parsed done = rw parsed (
      export_opened-held (open_store calls.opening flags.db d.catalog) d.disk.db fs
        (rw parsed at done))

-- A file that is loaded was read, resolved and parsed.
load_file-Holds :
    (sh : Shell) (path input body : Text) (broken : Bool) (fs : FileSystem) (cfg raw : Config)
    → sh.paths.absolute input ≡ some path
    → lookup path fs ≡ some (export_header ++ body)
    → sh.yaml.unmarshal (export_header ++ body) ≡ some cfg
    → load_file sh.yaml sh.paths broken input fs ≡ ok raw
    → raw ≡ resolve_tls sh.paths (sh.paths.folder path) cfg
unfolding load_file
load_file-Holds sh path input body true fs cfg raw a held u h =
    let failed : load_file sh.yaml sh.paths true input fs ≡ err unreadable = rw a refl in
    absurd (not_err failed h)
load_file-Holds sh path input body false fs cfg raw a held u h =
    let loaded : load_file sh.yaml sh.paths false input fs
        ≡ ok (resolve_tls sh.paths (sh.paths.folder path) cfg) =
      rw (a, held, u) refl in
    ok-injective (sym h ∙ loaded)

-- What a successful import of the file of a successful export, without hidden passwords, makes the
-- next `Load` of its database find: the configuration of the exported database, with its TLS paths
-- resolved against the folder of the file and as the store keeps it, that is, with names and addresses
-- trimmed, protocols spelled out and the safe state in lower case. It holds when the output is a file
-- other than the temporary one, the import reads that file, and YAML reads back what it wrote.
pub run_config_import-run_config_export :
    (sh : Shell) (calls : Calls) (temp path : Text) (args : List Text) (flags : ExportFlags)
    (d : Database) (fs : FileSystem) (calls' : Calls) (now : Text) (args' : List Text)
    (flags' : ImportFlags) (d' : Database) (n : ℕ)
    → export_flags sh args ≡ ok flags
    → flags.redact_secrets ≡ false
    → text_eq flags.output (codes "-") ≡ false
    → sh.paths.absolute flags.output ≡ some path
    → temp ≢ path
    → (run_config_export sh calls temp args d).0.0 ≡ ok tt
    → import_flags sh args' ≡ ok flags'
    → flags'.input ≡ flags.output
    → ((cfg : Config) (body : Text)
        → load d.disk.db ≡ ok cfg
        → sh.yaml.marshal cfg ≡ some body
        → sh.yaml.unmarshal (export_header ++ body) ≡ some cfg)
    → (run_config_import sh calls' now args'
        (file_steps (run_config_export sh calls temp args d).0.2 fs)
        d').0
      ≡ ok n
    → (cfg : Config) × (load d.disk.db ≡ ok cfg)
      × (n ≡ length cfg.tools)
      × (load
            (run_config_import sh calls' now args'
              (file_steps (run_config_export sh calls temp args d).0.2 fs)
              d').1.disk.db
          ≡ ok (stored_config (apply_defaults (resolve_tls sh.paths (sh.paths.folder path) cfg))))
unfolding resolve_tls
run_config_import-run_config_export sh calls temp path args flags d fs calls' now args' flags' d' n
      parsed plain to_file resolved other done parsed' same codec imported =
    let (cfg, body, loaded, m, held) =
      run_config_export-Holds sh calls temp path flags plain to_file resolved other args d fs parsed
        done in
    elim (run_config_import_outcome sh calls' now args' flags'
      (file_steps (run_config_export sh calls temp args d).0.2 fs) d' parsed') [
        | inl (e, failed, _) ↦ absurd (not_err failed imported)
        | inr (raw, (read, _), count, seen) ↦
            let it =
              load_file-Holds sh path flags.output body calls'.read_input _ cfg raw resolved held
                (codec cfg body loaded m) (rw same at read) in
            (
              cfg,
              loaded,
              ok-injective (sym imported ∙ count) ∙ ap (λ (c : Config). length c.tools) it,
              seen ∙ ap (λ c. ok (stored_config (apply_defaults c))) it,
            )
      ]
