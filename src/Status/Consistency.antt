-- ===== src/Status/Consistency.antt =====
-- The table and the order of internal/status/store.go: how they belong together.
use fbs_interlock_gateway.Prelude.{
  if◌then◌else◌, Bool-cases, Option-cases, All, All-map, All-append, AllDistinct,
  AllDistinct-append_one, ℤ, eqb_ℤ, eqb_ℤ_iff, ℕ, ◌≡◌, refl, sym, ◌≢◌, inl, inr, Bool, none, some,
  List, [], ◌∷◌, ◌++◌, map, arith,
}
use fbs_interlock_gateway.Dict.{int_key, text_key, Dict, same_refl, lookup, insert, lookup-insert}
use fbs_interlock_gateway.Config.{Tool, Config}
use fbs_interlock_gateway.Status.{
  ToolStatus, Store, placeholder, put_row, add_tools, new, is_stale, record_row, rows_at, snapshot,
}

abbrev pub Absent : ℤ → List ℤ → Type 0
Absent p = All (λ q. q ≢ p)

pub record IsConsistent (s : Store) : Type 0 where
  pub known : All (λ p. (row : ToolStatus) × (lookup p s.statuses ≡ some row)) s.order
  pub unknown : (p : ℤ) → lookup p s.statuses ≡ none → Absent p s.order
  pub distinct : AllDistinct s.order
  pub own_port : (p : ℤ) (row : ToolStatus) → lookup p s.statuses ≡ some row → row.port ≡ p

module _ (row : ToolStatus) (s : Store) (c : IsConsistent s) where
  still_known :
      (p : ℤ)
      → (r : ToolStatus) × (lookup p s.statuses ≡ some r)
      → (r : ToolStatus) × (lookup p (insert row.port row s.statuses) ≡ some r)
  still_known p (r, e) = elim (Bool-cases (eqb_ℤ row.port p)) [
    | inl h ↦ (row, rw (lookup-insert, h))
    | inr h ↦ (r, rw (lookup-insert, h, e))
  ]

  own_port-insert :
      (p : ℤ) (r : ToolStatus) → lookup p (insert row.port row s.statuses) ≡ some r → r.port ≡ p
  own_port-insert p r h =
      let found : (if eqb_ℤ row.port p then some row else lookup p s.statuses) ≡ some r =
        rw lookup-insert at h in
      elim (Bool-cases (eqb_ℤ row.port p)) [
        | inl e ↦ ground (arith, eqb_ℤ_iff row.port p)
        | inr e ↦ c.own_port p r (rw e at found)
      ]

  unknown-insert :
      (p : ℤ) → lookup p (insert row.port row s.statuses) ≡ none → (row.port ≢ p) × Absent p s.order
  unknown-insert p h =
      let missing : (if eqb_ℤ row.port p then some row else lookup p s.statuses) ≡ none =
        rw lookup-insert at h in
      elim (Bool-cases (eqb_ℤ row.port p)) [
        | inl e ↦ absurd (ground arith)
        | inr e ↦ ((λ q. ground (arith, eqb_ℤ_iff row.port p)), c.unknown p (rw e at missing))
      ]

  put_row-known :
      (r : ToolStatus) → lookup row.port s.statuses ≡ some r → IsConsistent (put_row row s)
  unfolding put_row
  put_row-known r e = record {
    known = rw (e, put_row) (All-map still_known s.order c.known);
    unknown = λ p h. rw e ((unknown-insert p h).1);
    distinct = rw e c.distinct;
    own_port = own_port-insert;
  }

  put_row-fresh : lookup row.port s.statuses ≡ none → IsConsistent (put_row row s)
  unfolding put_row
  put_row-fresh e = record {
    known = rw e (
        All-append _ s.order (row.port ∷ []) (All-map still_known s.order c.known)
          ((row, rw (lookup-insert, same_refl row.port)), tt));
    unknown = λ p h.
        let (ne, gone) = unknown-insert p h in
        rw e (All-append _ s.order (row.port ∷ []) gone (ne, tt));
    distinct = rw e (AllDistinct-append_one s.order row.port (c.unknown row.port e) c.distinct);
    own_port = own_port-insert;
  }

  pub put_row-IsConsistent : IsConsistent (put_row row s)
  put_row-IsConsistent = elim (Option-cases (lookup row.port s.statuses)) [
    | inl e ↦ put_row-fresh e
    | inr (r, e) ↦ put_row-known r e
  ]

-- A result that arrives, stale or not, keeps the table and the order of the store consistent.
pub record_row-IsConsistent :
    (row : ToolStatus) (revision : ℕ) (s : Store)
    → IsConsistent s
    → IsConsistent (record_row row revision s)
unfolding record_row
record_row-IsConsistent row revision s c =
    elim (Bool-cases (is_stale revision (lookup row.port s.statuses))) [
      | inl old ↦ rw old c
      | inr fresh ↦ rw fresh (put_row-IsConsistent (record row { revision = revision }) s c)
    ]

add_tools-IsConsistent :
    (safe : Bool) (ts : List Tool) (s : Store) → IsConsistent s → IsConsistent (add_tools safe ts s)
unfolding add_tools
add_tools-IsConsistent safe [] s c = c
add_tools-IsConsistent safe (t ∷ ts) s c =
    add_tools-IsConsistent safe ts (put_row (placeholder safe t) s)
      (put_row-IsConsistent (placeholder safe t) s c)

pub empty_store-IsConsistent : IsConsistent (record { statuses = []; order = []; next = 0 })
unfolding lookup
empty_store-IsConsistent = record {
  known = tt;
  unknown = λ p h. tt;
  distinct = tt;
  own_port = λ p row h. cc;
}

-- A new store is consistent, whatever the configuration, one with a repeated port included.
pub new-IsConsistent : (cfg : Config) (safe : Bool) → IsConsistent (new cfg safe)
unfolding new
new-IsConsistent cfg safe = add_tools-IsConsistent safe cfg.tools _ empty_store-IsConsistent

abbrev pub ports_of : List ToolStatus → List ℤ
ports_of = map (λ r. r.port)

ports-rows_at :
    (d : Dict ℤ ToolStatus) (ps : List ℤ)
    → ((p : ℤ) (row : ToolStatus) → lookup p d ≡ some row → row.port ≡ p)
    → All (λ p. (row : ToolStatus) × (lookup p d ≡ some row)) ps
    → ports_of (rows_at d ps) ≡ ps
unfolding rows_at
ports-rows_at d [] own known = refl
ports-rows_at d (p ∷ ps) own ((row, e), known) = rw (e, own p row e, ports-rows_at d ps own known)

-- In a consistent store the snapshot lists exactly the ports of the order, each once and in place.
pub ports-snapshot : (s : Store) → IsConsistent s → ports_of (snapshot s) ≡ s.order
unfolding snapshot
ports-snapshot s c = ports-rows_at s.statuses s.order c.own_port c.known

rows_at-insert :
    (d : Dict ℤ ToolStatus) (row : ToolStatus) (ps : List ℤ)
    → Absent row.port ps
    → rows_at (insert row.port row d) ps ≡ rows_at d ps
unfolding rows_at
rows_at-insert d row [] h = refl
rows_at-insert d row (p ∷ ps) h = elim (Bool-cases (eqb_ℤ row.port p)) [
  | inl e ↦ absurd (h.0 (sym ((eqb_ℤ_iff row.port p).0 e)))
  | inr e ↦ rw (lookup-insert, e, rows_at-insert d row ps h.1)
]

rows_at-append :
    (d : Dict ℤ ToolStatus) (ps qs : List ℤ) → rows_at d (ps ++ qs) ≡ rows_at d ps ++ rows_at d qs
unfolding rows_at
rows_at-append d [] qs = refl
rows_at-append d (p ∷ ps) qs = elim (Option-cases (lookup p d)) [
  | inl e ↦ rw (e, rows_at-append d ps qs)
  | inr (r, e) ↦ rw (e, rows_at-append d ps qs)
]

pub snapshot-put_row :
    (row : ToolStatus) (s : Store)
    → IsConsistent s
    → lookup row.port s.statuses ≡ none
    → snapshot (put_row row s) ≡ snapshot s ++ row ∷ []
unfolding snapshot put_row
snapshot-put_row row s c e =
    rw (e, rows_at-append, rows_at-insert s.statuses row s.order (c.unknown row.port e))
      (rw (lookup-insert row.port row.port row s.statuses, same_refl row.port))
