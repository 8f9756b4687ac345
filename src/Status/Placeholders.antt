-- ===== src/Status/Placeholders.antt =====
-- `New` of internal/status/store.go: the rows before any result.
use mathlib.Core.List.{append_assoc, append-nil}
use fbs_interlock_gateway.Prelude.{
  Bool-cases, All, All-zip, eqb_ℤ, eqb_ℤ_iff, ℕ, ◌≡◌, refl, sym, ap, ◌∙◌, ◌≢◌, inl, inr, Bool, none,
  List, [], ◌∷◌, ◌++◌, map, arith,
}
use fbs_interlock_gateway.Dict.{int_key, text_key, lookup, lookup-insert}
use fbs_interlock_gateway.Config.{Tool, Config}
use fbs_interlock_gateway.Config.Validation.{DistinctPorts}
use fbs_interlock_gateway.Status.{Store, placeholder, put_row, add_tools, new, snapshot}
use fbs_interlock_gateway.Status.Consistency.{
  IsConsistent, put_row-IsConsistent, empty_store-IsConsistent, snapshot-put_row,
}

port-placeholder : (safe : Bool) (t : Tool) → (placeholder safe t).port ≡ t.port
unfolding placeholder
port-placeholder safe t = ground arith

abbrev Unlisted : Store → Tool → Type 0
Unlisted s t = lookup t.port s.statuses ≡ none

Unlisted-after :
    (safe : Bool) (t u : Tool) (s : Store)
    → u.port ≢ t.port
    → Unlisted s u
    → Unlisted (put_row (placeholder safe t) s) u
unfolding put_row
Unlisted-after safe t u s ne free =
    rw (lookup-insert, port-placeholder safe t)
      (elim (Bool-cases (eqb_ℤ t.port u.port)) [
        | inl e ↦ absurd (ne (sym ((eqb_ℤ_iff t.port u.port).0 e)))
        | inr e ↦ rw (e, free)
      ])

snapshot-add_tools :
    (safe : Bool) (ts : List Tool) (s : Store)
    → IsConsistent s
    → All (Unlisted s) ts
    → DistinctPorts ts
    → snapshot (add_tools safe ts s) ≡ snapshot s ++ map (placeholder safe) ts
unfolding add_tools
snapshot-add_tools safe [] s c free distinct = sym (append-nil (snapshot s))
snapshot-add_tools safe (t ∷ ts) s c free distinct =
    let row = placeholder safe t in
    let c' = put_row-IsConsistent row s c in
    let free' = All-zip (λ u ne f. Unlisted-after safe t u s ne f) ts distinct.0 free.1 in
    snapshot-add_tools safe ts (put_row row s) c' free' distinct.1
    ∙ (ap (λ rows. rows ++ map (placeholder safe) ts)
          (snapshot-put_row row s c (rw (port-placeholder safe t) free.0))
        ∙ append_assoc (snapshot s) (row ∷ []) (map (placeholder safe) ts))

empty_lookup :
    (ts : List Tool) (n : ℕ) → All (Unlisted (record { statuses = []; order = []; next = n })) ts
unfolding lookup
empty_lookup [] n = tt
empty_lookup (t ∷ ts) n = (refl, empty_lookup ts n)

-- When no two tools share a port, the snapshot of a new store has one row for each tool, in the
-- order of the configuration: its placeholder.
pub snapshot-new :
    (cfg : Config) (safe : Bool)
    → DistinctPorts cfg.tools
    → snapshot (new cfg safe) ≡ map (placeholder safe) cfg.tools
unfolding new snapshot
snapshot-new cfg safe distinct =
    snapshot-add_tools safe cfg.tools (record { statuses = []; order = []; next = 0 })
      empty_store-IsConsistent (empty_lookup cfg.tools 0) distinct
