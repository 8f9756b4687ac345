-- ===== src/Startup/Restart.antt =====
-- What a start of cmd/fbs-interlock-gateway/main.go finds after an import and after a saved change.
use fbs_interlock_gateway.Prelude.{
  Result, ok, err, not_err, ◌≡◌, sym, ap, ◌∙◌, inl, inr, Bool, true, false, Option, none, some, [],
}
use fbs_interlock_gateway.Text.{Text}
use fbs_interlock_gateway.Config.{Config, apply_defaults, validate}
use fbs_interlock_gateway.ConfigStore.{Faults, Disk, replace_config, initialize, load}
use fbs_interlock_gateway.ConfigStore.Schema.{StoreError}
use fbs_interlock_gateway.ConfigStore.RoundTrip.{stored_config}
use fbs_interlock_gateway.ConfigStore.Loading.{apply_defaults_idem, load-replace}
use fbs_interlock_gateway.ConfigStore.Identity.{replace_outcome}
use fbs_interlock_gateway.Admin.Update.{ConfigRequest, build_updated_config}
use fbs_interlock_gateway.Gateway.{Gateway, config_snapshot, put_config}
use fbs_interlock_gateway.Gateway.Updates.{Promises, update_config_outcome}
use fbs_interlock_gateway.Startup.{
  Legacy, StartError, legacy_unreadable, start_from, load_or_migrate, database,
}

abbrev found : Option Config → Result StartError (Config × Bool)
found none = err (legacy_unreadable [])
found (some cfg) = ok (cfg, false)

abbrev loaded : Result StoreError Config → Option Config
loaded (ok cfg) = some cfg
loaded (err e) = none

-- The database keeps the promises that the gateway relies on.
pub database_promises : (faults : Faults) (path now : Text) → Promises (database faults path now)
unfolding replace_config
database_promises faults path now = record {
  view = λ disk. loaded (load disk.db);
  stored = λ cfg. stored_config (apply_defaults cfg);
  kept = λ cfg disk e h. elim (replace_outcome faults path now cfg true disk) [
    | inl (_, _, same) ↦ same
    | inr (done, _) ↦ absurd (not_err h done)
  ];
  written = λ cfg disk h. ap loaded (load-replace faults path now cfg true disk h);
}

module _ (faults : Faults) (path now : Text) (legacy : Legacy) where
  start_from-loaded :
      (r : Result StoreError Config) (cfg : Config) (disk : Disk)
      → loaded r ≡ some cfg
      → start_from faults path now legacy r disk ≡ (ok (cfg, false), disk)
  unfolding start_from
  start_from-loaded (ok c) cfg disk h = ap (λ o. (found o, disk)) h
  start_from-loaded (err e) cfg disk h = cc

  -- After a saved change, whatever it was, the next start loads it from the database and imports
  -- nothing: it finds what the running gateway holds, with names and addresses trimmed, protocols
  -- spelled out and the safe state in lower case.
  pub load_or_migrate-put_config :
      (request : ConfigRequest) (g : Gateway) (disk : Disk)
      → (put_config (some (database faults path now)) request (g, disk)).0 ≡ ok tt
      → load_or_migrate faults path now legacy
          (put_config (some (database faults path now)) request (g, disk)).1.1
        ≡ (
          ok (
            stored_config (put_config (some (database faults path now)) request (g, disk)).1.0.cfg,
            false,
          ),
          (put_config (some (database faults path now)) request (g, disk)).1.1,
        )
  unfolding put_config load_or_migrate database_promises
  load_or_migrate-put_config request g disk h =
      let raw = build_updated_config (config_snapshot g) request in
      elim (update_config_outcome (database faults path now) (database_promises faults path now) raw
        g disk) [
          | inl (e, failed, _, _) ↦ absurd (not_err failed h)
          | inr (_, valid, running, seen) ↦ start_from-loaded (load _) _ _ (
              seen
              ∙ ap (λ cfg. some (stored_config cfg))
                  (apply_defaults_idem raw ∙ sym (ap (λ k. k.cfg) running)))
        ]

  -- What a start that imported went through.
  abbrev Imported : Legacy → Disk → Disk → Config → Type 0
  Imported l disk disk' cfg =
      (raw : Config) × (l ≡ ok raw)
      × (validate (apply_defaults raw) ≡ ok tt)
      × ((initialize faults path now (apply_defaults raw) disk).0 ≡ ok tt)
      × ((initialize faults path now (apply_defaults raw) disk).1 ≡ disk')
      × (load disk'.db ≡ ok cfg)
