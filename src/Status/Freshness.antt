-- ===== src/Status/Freshness.antt =====
-- Revisions that were just drawn, in internal/status/store.go.
use fbs_interlock_gateway.Prelude.{
  Bool-cases, ℤ, eqb_ℤ, ℕ, ◌+◌, ◌^◌, ◌≤◌, ◌<◌, ◌≡◌, refl, inl, inr, Option, none, some, arith,
  mod-eq_of_lt,
}
use fbs_interlock_gateway.Dict.{int_key, text_key, same_refl, lookup}
use fbs_interlock_gateway.Status.{ToolStatus, Store, next_revision, is_stale, record_row}
use fbs_interlock_gateway.Status.Ordering.{row_at, newer, row_at-record_row, revision_of}

-- No row is ahead of the counter.
abbrev pub IsFresh : Store → Type 0
IsFresh s = (p : ℤ) → revision_of (row_at s p) ≤ s.next

-- The counter has not come to its wrap-around.
abbrev pub HasRevisions : Store → Type 0
HasRevisions s = s.next + 1 < 2 ^ 64

next_revision_lem :
    (s : Store) → HasRevisions s → next_revision s ≡ (s.next + 1, record s { next = s.next + 1 })
unfolding next_revision
next_revision_lem s h = rw (mod-eq_of_lt h)

newer_of_le :
    (row : ToolStatus) (revision : ℕ) (o : Option ToolStatus)
    → revision_of o ≤ revision
    → newer row revision o ≡ some (record row { revision = revision })
newer_of_le row revision none h = refl
newer_of_le row revision (some c) h = ground arith

next-record_row : (row : ToolStatus) (n : ℕ) (s : Store) → (record_row row n s).next ≡ s.next
unfolding record_row
next-record_row row n s = elim (Bool-cases (is_stale n (lookup row.port s.statuses))) [
  | inl e ↦ rw e
  | inr e ↦ rw e
]

newer-le :
    (row : ToolStatus) (n m : ℕ) (o : Option ToolStatus)
    → n ≤ m
    → revision_of o ≤ m
    → revision_of (newer row n o) ≤ m
newer-le row n m none h k = h
newer-le row n m (some c) h k = ground arith

record_row-IsFresh :
    (row : ToolStatus) (n : ℕ) (s : Store) → n ≤ s.next → IsFresh s → IsFresh (record_row row n s)
record_row-IsFresh row n s h f p =
    rw (next-record_row row n s, row_at-record_row)
      (elim (Bool-cases (eqb_ℤ row.port p)) [
        | inl e ↦ rw e (newer-le row n s.next (row_at s p) h (f p))
        | inr e ↦ rw e (f p)
      ])

module _ (row : ToolStatus) (s : Store) (f : IsFresh s) (h : HasRevisions s) where
  -- A result recorded under the next revision is what its port shows.
  pub row_at-record_row_next :
      row_at (record_row row (next_revision s).0 (next_revision s).1) row.port
      ≡ some (record row { revision = s.next + 1 })
  row_at-record_row_next =
      rw (next_revision_lem s h, row_at-record_row, same_refl row.port)
        (newer_of_le row (s.next + 1) (row_at s row.port) (omega (arith, f row.port)))

  -- Recording under the next revision keeps every row behind the counter.
  pub record_row_next-IsFresh : IsFresh (record_row row (next_revision s).0 (next_revision s).1)
  record_row_next-IsFresh = rw (next_revision_lem s h) (
      record_row-IsFresh row (s.next + 1) (record s { next = s.next + 1 }) (omega arith)
        (λ p. omega (arith, f p)))

  pub record_row_next-next :
      (record_row row (next_revision s).0 (next_revision s).1).next ≡ s.next + 1
  record_row_next-next =
      rw (next_revision_lem s h) (next-record_row row (s.next + 1) (record s { next = s.next + 1 }))
