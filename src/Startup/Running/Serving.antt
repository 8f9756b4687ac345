-- ===== src/Startup/Running/Serving.antt =====
-- What `runGateway` of cmd/fbs-interlock-gateway/main.go serves.
use fbs_interlock_gateway.Applog.Archive.Writing.{Store}
use fbs_interlock_gateway.Gateway.Running.{
  Ending, shutdown, restart, server_stopped, server_failed, RunError, client_of, no_client, Launch,
}
use fbs_interlock_gateway.Gateway.Running.Listening.{Returns, Serves, run_gateway-accepted}
use fbs_interlock_gateway.Config.Enabled.{is_enabled, validate-validate_enabled_tools}
use fbs_interlock_gateway.ConfigStore.Loading.{apply_defaults_idem}
use fbs_interlock_gateway.Shelly.Setup.{SetupError}
use fbs_interlock_gateway.ConfigStore.Opening.{OpenError, Opened, open_store}
use fbs_interlock_gateway.Startup.Commands.{CommandError, default_paths}
use fbs_interlock_gateway.Prelude.{
  ◌||◌, not, Result, ok, err, ◌>>◌, wrap_err, ok-injective, ◌≡◌, refl, sym, ap, ◌∙◌, Bool, Option,
  none, some, select, List, Bool-cases, ◌⊎◌, inl, inr, [], true,
}
use fbs_interlock_gateway.Text.{Text}
use fbs_interlock_gateway.Config.{Config, Check, validate, apply_defaults, clone}
use fbs_interlock_gateway.ConfigStore.{Faults, Disk, load, load_settings, config_of, initialize}
use fbs_interlock_gateway.Startup.Running.{
  no_default_paths, database_unread, not_started, with_parsed, with_defaults, ProgramError, Flags,
  flags_refused, database_not_opened, not_configured, gateway_failed, admin_addr, Machine, Ran,
  started, with_store, with_flags, run_program,
}
use fbs_interlock_gateway.ConfigStore.Schema.{
  Settings, Row, StoreError, invalid_config, database_invalid, begin_failed, load_existing_failed,
  settings_failed, delete_failed, commit_failed, insert_failed, uninitialized, Db,
}
use fbs_interlock_gateway.ConfigStore.Commit.{clone_lem}
use fbs_interlock_gateway.Startup.{
  Legacy, reload, reload_imported, import_if_valid, import_legacy, start_from, StartError, Start,
  load_or_migrate, resolve_runtime_db_path,
}

validated :
    (v : Check) (cfg : Config) {out : Config}
    → (wrap_err database_invalid v >> ok (clone cfg)) ≡ ok out
    → (v ≡ ok tt) × (out ≡ cfg)
validated (ok _) cfg h = (refl, sym (ok-injective h) ∙ clone_lem cfg)
validated (err e) cfg h = cc

load_settings-valid :
    (o : Option Settings) (rows : List Row) {cfg : Config}
    → load_settings o rows ≡ ok cfg
    → validate cfg ≡ ok tt
unfolding load_settings
load_settings-valid none rows h = cc
load_settings-valid (some s) rows h =
    let (valid, same) =
      validated (validate (apply_defaults (config_of s rows))) (apply_defaults (config_of s rows))
        h in
    ap validate same ∙ valid

load-valid : (db : Db) {cfg : Config} → load db ≡ ok cfg → validate cfg ≡ ok tt
unfolding load
load-valid db h = load_settings-valid db.settings db.tools h

module _ (faults : Faults) (path now : Text) (disk' : Disk) (cfg : Config) (migrated : Bool) where
  reload-loads :
      (r : Result StoreError Config) (disk : Disk)
      → load disk.db ≡ r
      → reload r disk ≡ (ok (cfg, migrated), disk')
      → load disk'.db ≡ ok cfg
  unfolding reload
  reload-loads (ok c) disk seen h = cc
  reload-loads (err e) disk seen h = cc

  reload_imported-loads :
      (r : Result StoreError (Unit {0})) (disk : Disk)
      → reload_imported (r, disk) ≡ (ok (cfg, migrated), disk')
      → load disk'.db ≡ ok cfg
  unfolding reload_imported
  reload_imported-loads (ok _) disk h = reload-loads (load disk.db) disk refl h
  reload_imported-loads (err e) disk h = cc

  import_if_valid-loads :
      (c : Check) (raw : Config) (disk : Disk)
      → import_if_valid faults path now raw c disk ≡ (ok (cfg, migrated), disk')
      → load disk'.db ≡ ok cfg
  unfolding import_if_valid
  import_if_valid-loads (ok _) raw disk h =
      reload_imported-loads (initialize faults path now raw disk).0
        (initialize faults path now raw disk).1 h
  import_if_valid-loads (err e) raw disk h = cc

  import_legacy-loads :
      (legacy : Legacy) (disk : Disk)
      → import_legacy faults path now legacy disk ≡ (ok (cfg, migrated), disk')
      → load disk'.db ≡ ok cfg
  unfolding import_legacy
  import_legacy-loads (err e) disk h = cc
  import_legacy-loads (ok raw) disk h =
      import_if_valid-loads (validate (apply_defaults raw)) (apply_defaults raw) disk h

  start_from-loads :
      (legacy : Legacy) (r : Result StoreError Config) (disk : Disk)
      → load disk.db ≡ r
      → start_from faults path now legacy r disk ≡ (ok (cfg, migrated), disk')
      → load disk'.db ≡ ok cfg
  unfolding start_from
  start_from-loads legacy (ok c) disk seen h = cc
  start_from-loads legacy (err uninitialized) disk seen h = import_legacy-loads legacy disk h
  start_from-loads legacy (err (invalid_config e)) disk seen h = cc
  start_from-loads legacy (err (database_invalid e)) disk seen h = cc
  start_from-loads legacy (err begin_failed) disk seen h = cc
  start_from-loads legacy (err load_existing_failed) disk seen h = cc
  start_from-loads legacy (err settings_failed) disk seen h = cc
  start_from-loads legacy (err delete_failed) disk seen h = cc
  start_from-loads legacy (err commit_failed) disk seen h = cc
  start_from-loads legacy (err (insert_failed e)) disk seen h = cc

-- What `NewWithStore` keeps of a configuration has the same tools, and is as valid.
kept_valid : (cfg : Config) → validate cfg ≡ ok tt → validate (clone (apply_defaults cfg)) ≡ ok tt
unfolding validate
kept_valid cfg h = rw (clone_lem (apply_defaults cfg), apply_defaults_idem cfg) h

kept_Serves :
    (cfg : Config) (ls : List Launch) → Serves (clone (apply_defaults cfg)) ls → Serves cfg ls
unfolding apply_defaults
kept_Serves cfg ls serves = record {
  tools = serves.tools ∙ ap (λ c. select is_enabled c.tools) (clone_lem (apply_defaults cfg));
  tools_valid = serves.tools_valid;
  ports_distinct = serves.ports_distinct;
  cleared = serves.cleared;
}

-- No error after a shutdown or a restart, and otherwise that of the server that stopped.
abbrev pub ProgramReturns : {E : Type 0} → Ending E → Result (ProgramError E) (Unit {0}) → Type 0
ProgramReturns shutdown r = r ≡ ok tt
ProgramReturns restart r = r ≡ ok tt
ProgramReturns (server_stopped e) r = r ≡ err (gateway_failed (server_failed e))

ProgramReturns-wrap_err :
    {E : Type 0} (ending : Ending E) (r : Result (RunError E) (Unit {0}))
    → Returns ending r
    → ProgramReturns ending (wrap_err gateway_failed r)
ProgramReturns-wrap_err shutdown r h = ap (wrap_err gateway_failed) h
ProgramReturns-wrap_err restart r h = ap (wrap_err gateway_failed) h
ProgramReturns-wrap_err (server_stopped e) r h = ap (wrap_err gateway_failed) h

module _ {E : Type 0} (m : Machine) (ending : Ending E) where
  -- The program was only asked for its version.
  pub record PrintedVersion (parse : Text → Option Flags) (r : Ran E) : Type 0 where
    pub paths : Text × Text
    pub flags : Flags
    pub has_paths : default_paths m.shell ≡ ok paths
    pub parsed : parse paths.1 ≡ some flags
    pub asked : flags.show_version ≡ true
    pub nothing_started : r.launched ≡ []
    pub no_error : r.result ≡ ok tt
    pub disk_kept : r.disk ≡ m.disk

  -- Nothing was started, after an error that is not about the tools.
  abbrev pub StartedNothing : Ran E → Type 0
  StartedNothing r =
      (r.launched ≡ [])
      × (((e : CommandError) × (r.result ≡ err (no_default_paths e)))
          ⊎ (r.result ≡ err flags_refused)
          ⊎ ((e : OpenError) × (r.result ≡ err (database_not_opened e)))
          ⊎ (r.result ≡ err database_unread)
          ⊎ ((e : StartError) × (r.result ≡ err (not_configured e)))
          ⊎ ((e : SetupError) × (r.result ≡ err (gateway_failed (no_client e)))))

  -- The enabled tools of the configuration that the database holds are served.
  abbrev pub ServesStored : Ran E → Type 0
  ServesStored r =
      (cfg : Config) × (load r.disk.db ≡ ok cfg)
      × Serves cfg r.launched
      × ProgramReturns ending r.result

  started-cases :
      (archive : Option Store) (s : Start)
      → ((cfg : Config) (migrated : Bool) → s.0 ≡ ok (cfg, migrated) → load s.1.db ≡ ok cfg)
      → StartedNothing (started m ending archive s) ⊎ ServesStored (started m ending archive s)
  unfolding started
  started-cases archive (err e, disk) loads = inl (refl, inr (inr (inr (inr (inl (e, refl))))))
  started-cases archive (ok (cfg, migrated), disk) loads =
      let loaded = loads cfg migrated refl in
      elim (run_gateway-accepted m.port_fails admin_addr (clone (apply_defaults cfg)) ending
        (client_of m.key_files cfg)
        (validate-validate_enabled_tools (clone (apply_defaults cfg))
          (kept_valid cfg (load-valid disk.db loaded)))) [
            | inl (e, same) ↦ inl (
              ap (λ p. p.1) same,
              inr (inr (inr (inr (inr (e, ap (λ p. wrap_err gateway_failed p.0) same))))),
            )
            | inr (result, serves) ↦
                inr (cfg, loaded, kept_Serves cfg _ serves, ProgramReturns-wrap_err ending _ result)
          ]

  with_store-cases :
      (archive : Option Store) (config : Text) (o : Opened)
      → StartedNothing (with_store m ending archive config o)
        ⊎ ServesStored (with_store m ending archive config o)
  unfolding with_store not_started load_or_migrate
  with_store-cases archive config (err e, catalog) = inl (refl, inr (inr (inl (e, refl))))
  with_store-cases archive config (ok _, catalog) =
      let s = load_or_migrate m.statement_faults config m.time (m.legacy config) m.disk in
      elim (Bool-cases (m.load_fails || not catalog.has_tables)) [
        | inl unread ↦ rw unread (inl (refl, inr (inr (inr (inl refl)))))
        | inr readable ↦ rw readable (
            started-cases archive s (λ cfg migrated h.
              start_from-loads m.statement_faults config m.time s.1 cfg migrated (m.legacy config)
                (load m.disk.db) m.disk refl (ap (λ r. (r, s.1)) h)))
      ]

  with_flags-cases :
      (flags : Flags)
      → StartedNothing (with_flags m ending flags) ⊎ ServesStored (with_flags m ending flags)
  unfolding with_flags
  with_flags-cases flags = with_store-cases _ flags.config (
      open_store m.store_faults
        (resolve_runtime_db_path m.sibling m.shell.db_path_variable flags.db flags.config)
        m.catalog)

  with_defaults-cases :
      (parse : Text → Option Flags) (d : Result CommandError (Text × Text)) (o : Option Flags)
      → default_paths m.shell ≡ d
      → ((paths : Text × Text) → d ≡ ok paths → parse paths.1 ≡ o)
      → PrintedVersion parse (with_defaults m ending parse d)
        ⊎ StartedNothing (with_defaults m ending parse d)
        ⊎ ServesStored (with_defaults m ending parse d)
  unfolding with_defaults with_parsed not_started
  with_defaults-cases parse (err e) o h k = inr (inl (refl, inl (e, refl)))
  with_defaults-cases parse (ok paths) none h k =
      rw (k paths refl) (inr (inl (refl, inr (inl refl))))
  with_defaults-cases parse (ok paths) (some flags) h k = elim (Bool-cases flags.show_version) [
    | inl version ↦
        rw (k paths refl, version)
          (inl (record {
            paths = paths;
            flags = flags;
            has_paths = h;
            parsed = k paths refl;
            asked = version;
            nothing_started = refl;
            no_error = refl;
            disk_kept = refl;
          }))
    | inr run ↦ rw (k paths refl, run) (inr (with_flags-cases flags))
  ]

  parsed_of : (Text → Option Flags) → Result CommandError (Text × Text) → Option Flags
  parsed_of parse (err e) = none
  parsed_of parse (ok paths) = parse paths.1

  -- Whatever fails, and whatever ends the gateway, one of three things holds. The program has its
  -- default paths, is asked for its version, starts nothing and succeeds. Or it starts nothing and
  -- returns an error, of its default paths, its flags, the database, the stored configuration or the
  -- client. Or it serves the enabled tools of the configuration that the database then holds, which
  -- are valid and on different ports, and returns no error after a shutdown or a restart, and
  -- otherwise the error of the server that stopped.
  pub run_program_outcome :
      (parse : Text → Option Flags)
      → PrintedVersion parse (run_program m ending parse)
        ⊎ StartedNothing (run_program m ending parse)
        ⊎ ServesStored (run_program m ending parse)
  unfolding run_program parsed_of
  run_program_outcome parse =
      with_defaults-cases parse (default_paths m.shell) (parsed_of parse (default_paths m.shell))
        refl (λ paths h. ap (parsed_of parse) (sym h))
