-- ===== src/Status/Ordering.antt =====
-- `Record` of internal/status/store.go, at one port, under revisions in any order.
use fbs_interlock_gateway.Prelude.{
  ◌⊎◌, ap, ltb, if◌then◌else◌, Bool-cases, ℤ, eqb_ℤ, eqb_ℤ_iff, ℕ, ◌≤◌, ◌≡◌, refl, sym, subst, ◌∙◌,
  ◌≢◌, inl, inr, Bool, true, false, Option, none, some, arith,
}
use fbs_interlock_gateway.Dict.{int_key, text_key, same_refl, lookup, lookup-insert}
use fbs_interlock_gateway.Text.{Text}
use fbs_interlock_gateway.Config.{Tool}
use fbs_interlock_gateway.Status.{
  ToolStatus, Store, tool_status, is_stale, record_row, record_success, message_of, record_failure,
}

-- What the store shows for a port.
abbrev pub row_at : Store → ℤ → Option ToolStatus
row_at s p = lookup p s.statuses

-- The row of a port after a result for it has arrived.
abbrev pub newer : ToolStatus → ℕ → Option ToolStatus → Option ToolStatus
newer row revision none = some (record row { revision = revision })
newer row revision (some current) =
    if ltb revision current.revision
    then some current
    else some (record row { revision = revision })

row_at-record_row_self :
    (row : ToolStatus) (revision : ℕ) (s : Store) (o : Option ToolStatus)
    → row_at s row.port ≡ o
    → row_at (record_row row revision s) row.port ≡ newer row revision o
unfolding record_row
row_at-record_row_self row revision s none h = rw (h, lookup-insert, same_refl row.port)
row_at-record_row_self row revision s (some c) h = elim (Bool-cases (ltb revision c.revision)) [
  | inl old ↦ rw (h, old, h)
  | inr fresh ↦ rw (h, fresh, lookup-insert, same_refl row.port)
]

row_at-record_row_ne :
    (row : ToolStatus) (revision : ℕ) (s : Store) (p : ℤ)
    → eqb_ℤ row.port p ≡ false
    → row_at (record_row row revision s) p ≡ row_at s p
unfolding record_row
row_at-record_row_ne row revision s p h =
    elim (Bool-cases (is_stale revision (lookup row.port s.statuses))) [
      | inl old ↦ rw old
      | inr fresh ↦ rw (fresh, lookup-insert, h)
    ]

pub row_at-record_row :
    (row : ToolStatus) (revision : ℕ) (s : Store) (p : ℤ)
    → row_at (record_row row revision s) p
      ≡ (if eqb_ℤ row.port p then newer row revision (row_at s p) else row_at s p)
row_at-record_row row revision s p = elim (Bool-cases (eqb_ℤ row.port p)) [
  | inl e ↦ rw e (
      subst (λ q. row_at (record_row row revision s) q ≡ newer row revision (row_at s q))
        ((eqb_ℤ_iff row.port p).0 e)
        (row_at-record_row_self row revision s (row_at s row.port) refl))
  | inr e ↦ rw e (row_at-record_row_ne row revision s p e)
]

newer_comm :
    (r q : ToolStatus) (a b : ℕ) (o : Option ToolStatus)
    → a ≢ b
    → newer r a (newer q b o) ≡ newer q b (newer r a o)
newer_comm r q a b none h = ground arith
newer_comm r q a b (some c) h = ground arith

-- Two results that arrive in either order leave the same row at every port, if they are for
-- different ports or have different revisions.
pub record_row_comm :
    (r q : ToolStatus) (a b : ℕ) (s : Store) (p : ℤ)
    → (r.port ≡ q.port → a ≢ b)
    → row_at (record_row r a (record_row q b s)) p ≡ row_at (record_row q b (record_row r a s)) p
record_row_comm r q a b s p h = simp row_at-record_row (elim (Bool-cases (eqb_ℤ r.port p)) [
  | inr e ↦ rw e
  | inl e ↦ elim (Bool-cases (eqb_ℤ q.port p)) [
    | inr f ↦ rw (e, f)
    | inl f ↦
        rw (e, f)
          (newer_comm r q a b (row_at s p)
            (h ((eqb_ℤ_iff r.port p).0 e ∙ sym ((eqb_ℤ_iff q.port p).0 f))))
  ]
])

-- The revision of a port's row; a port with no row is below every revision.
abbrev pub revision_of : Option ToolStatus → ℕ
revision_of none = 0
revision_of (some row) = row.revision

-- No result lowers the revision of any port, and after a result its own port is at least at the
-- result's revision.
pub record_row-monotone :
    (row : ToolStatus) (revision : ℕ) (s : Store) (p : ℤ)
    → (revision_of (row_at s p) ≤ revision_of (row_at (record_row row revision s) p))
      × (revision ≤ revision_of (row_at (record_row row revision s) row.port))
record_row-monotone row revision s p =
    simp (row_at-record_row, same_refl row.port) (own (row_at s p), other (row_at s row.port))
  where
    own :
        (o : Option ToolStatus)
        → revision_of o ≤ revision_of (if eqb_ℤ row.port p then newer row revision o else o)
    own none = omega arith
    own (some c) = ground arith

    other : (o : Option ToolStatus) → revision ≤ revision_of (newer row revision o)
    other none = omega arith
    other (some c) = ground arith

-- The row of a port is as it was, or it was no newer than a revision and has that revision now.
abbrev pub KeptOrRefreshed : ℕ → Store → Store → ℤ → Type 0
KeptOrRefreshed revision s s' p =
    (row_at s' p ≡ row_at s p)
    ⊎ ((revision_of (row_at s p) ≤ revision) × (revision_of (row_at s' p) ≡ revision))

pub KeptOrRefreshed-trans :
    (revision : ℕ) (s t u : Store) (p : ℤ)
    → KeptOrRefreshed revision s t p
    → KeptOrRefreshed revision t u p
    → KeptOrRefreshed revision s u p
KeptOrRefreshed-trans revision s t u p (inl same) (inl same') = inl (same' ∙ same)
KeptOrRefreshed-trans revision s t u p (inl same) (inr (older, newest)) =
    inr (omega (arith, older, ap revision_of same), newest)
KeptOrRefreshed-trans revision s t u p (inr (older, newest)) (inl same') =
    inr (older, ap revision_of same' ∙ newest)
KeptOrRefreshed-trans revision s t u p (inr (older, _)) (inr (_, newest)) = inr (older, newest)

newer-cases :
    (row : ToolStatus) (revision : ℕ) (o : Option ToolStatus)
    → (newer row revision o ≡ o)
      ⊎ ((revision_of o ≤ revision) × (revision_of (newer row revision o) ≡ revision))
newer-cases row revision none = inr (omega arith, refl)
newer-cases row revision (some c) = elim (Bool-cases (ltb revision c.revision)) [
  | inl old ↦ rw old (inl refl)
  | inr fresh ↦ rw fresh (inr (ground (arith, fresh), refl))
]

pub record_row-KeptOrRefreshed :
    (row : ToolStatus) (revision : ℕ) (s : Store) (p : ℤ)
    → KeptOrRefreshed revision s (record_row row revision s) p
record_row-KeptOrRefreshed row revision s p =
    rw (row_at-record_row row revision s p) (elim (Bool-cases (eqb_ℤ row.port p)) [
      | inl own ↦ rw own (newer-cases row revision (row_at s p))
      | inr other ↦ rw other (inl refl)
    ])

pub record_failure-KeptOrRefreshed :
    (t : Tool) (safe : Bool) (e : Option Text) (revision : ℕ) (s : Store) (p : ℤ)
    → KeptOrRefreshed revision s (record_failure t safe e revision s) p
unfolding record_failure
record_failure-KeptOrRefreshed t safe e revision s p =
    record_row-KeptOrRefreshed (record (tool_status t) { output = safe; error = message_of e })
      revision s p

pub record_success-KeptOrRefreshed :
    (t : Tool) (output : Bool) (revision : ℕ) (s : Store) (p : ℤ)
    → KeptOrRefreshed revision s (record_success t output revision s) p
unfolding record_success
record_success-KeptOrRefreshed t output revision s p =
    record_row-KeptOrRefreshed (record (tool_status t) { connected = true; output = output })
      revision s p
