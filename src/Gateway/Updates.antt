-- ===== src/Gateway/Updates.antt =====
-- `UpdateConfig` of internal/gateway/gateway.go, over the promises of a store.
use fbs_interlock_gateway.Prelude.{
  Result, ok, err, wrap_err, ok-injective, Result-cases, ◌≡◌, refl, ap, ◌⊎◌, inl, inr, Option, some,
}
use fbs_interlock_gateway.Config
use fbs_interlock_gateway.Config.{Config, Check, apply_defaults, safe_output, validate}
use fbs_interlock_gateway.ConfigStore.Commit.{clone_lem}
use fbs_interlock_gateway.Gateway.{
  ConfigPersistence, Gateway, UpdateError, write_failed, write_with, write_if_valid, adopt,
  update_config,
}

-- What a store promises: a failed replacement changes nothing, and after one that succeeded a
-- restart reads `stored` of the configuration.
pub record Promises {E S : Type 0} (p : ConfigPersistence E S) : Type 0 where
  pub view : S → Option Config
  pub stored : Config → Config
  pub kept : (cfg : Config) (s : S) (e : E) → (p.replace cfg s).0 ≡ err e → (p.replace cfg s).1 ≡ s
  pub written :
      (cfg : Config) (s : S)
      → (p.replace cfg s).0 ≡ ok tt
      → view (p.replace cfg s).1 ≡ some (stored cfg)

wrap_err-eq-err :
    {E F A : Type 0} (f : E → F) (r : Result E A) {e' : F}
    → wrap_err f r ≡ err e'
    → (e : E) × (r ≡ err e)
wrap_err-eq-err f (ok a) h = cc
wrap_err-eq-err f (err e) h = (e, refl)

wrap_err-eq-ok :
    {E F A : Type 0} (f : E → F) (r : Result E A) {a : A} → wrap_err f r ≡ ok a → r ≡ ok a
wrap_err-eq-ok f (ok a) h = ap ok (ok-injective h)
wrap_err-eq-ok f (err e) h = cc

module _ {E S : Type 0} (p : ConfigPersistence E S) (law : Promises p) where
  write_if_valid-err :
      (c : Check) (cfg : Config) (s : S) {e : UpdateError E}
      → (write_if_valid c (some p) cfg s).0 ≡ err e
      → (write_if_valid c (some p) cfg s).1 ≡ s
  unfolding write_if_valid write_with
  write_if_valid-err (err x) cfg s h = refl
  write_if_valid-err (ok _) cfg s h =
      let (e, failed) = wrap_err-eq-err write_failed (p.replace cfg s).0 h in
      law.kept cfg s e failed

  write_if_valid-ok :
      (c : Check) (cfg : Config) (s : S)
      → (write_if_valid c (some p) cfg s).0 ≡ ok tt
      → (c ≡ ok tt) × (law.view (write_if_valid c (some p) cfg s).1 ≡ some (law.stored cfg))
  unfolding write_if_valid write_with
  write_if_valid-ok (err x) cfg s h = cc
  write_if_valid-ok (ok _) cfg s h =
      (refl, law.written cfg s (wrap_err-eq-ok write_failed (p.replace cfg s).0 h))

  -- Over a store that keeps its promises: an update that fails, whether the configuration is invalid
  -- or the store reports an error, leaves the gateway and the store as they were; one that succeeds
  -- puts the configuration with its defaults in memory, where it is valid, with its safe output, and
  -- a restart will read it back as the store keeps it. The status rows are left alone.
  pub update_config_outcome :
      (raw : Config) (g : Gateway) (s : S)
      → let (result, (g', s')) = update_config (some p) raw (g, s) in
        ((e : UpdateError E) × (result ≡ err e) × (g' ≡ g) × (s' ≡ s))
        ⊎ ((result ≡ ok tt)
            × (validate (apply_defaults raw) ≡ ok tt)
            × (g' ≡ record g {
              cfg = apply_defaults raw;
              safe_output = Config.safe_output (apply_defaults raw);
            })
            × (law.view s' ≡ some (law.stored (apply_defaults raw))))
  unfolding update_config adopt
  update_config_outcome raw g s =
      rw (clone_lem (apply_defaults raw))
        (elim (Result-cases
          (write_if_valid (validate (apply_defaults raw)) (some p) (apply_defaults raw) s).0) [
            | inl (e, h) ↦ inl (
              e,
              h,
              rw h refl,
              write_if_valid-err (validate (apply_defaults raw)) (apply_defaults raw) s h,
            )
            | inr (_, h) ↦
                let (valid, seen) =
                  write_if_valid-ok (validate (apply_defaults raw)) (apply_defaults raw) s h in
                inr (h, valid, rw h refl, seen)
          ])
