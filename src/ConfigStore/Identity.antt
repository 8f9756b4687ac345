-- ===== src/ConfigStore/Identity.antt =====
-- The identities that `replace` of internal/configstore/store.go preserves, and its outcomes.
use fbs_interlock_gateway.Prelude.{
  if◌then◌else◌, All, Result, ok, err, ◌≤◌, ◌<◌, ◌≡◌, refl, ◌∙◌, ◌≢◌, ◌⊎◌, inl, inr, Bool, not,
  ◌&&◌, some, List, [], ◌∷◌, ◌++◌, arith,
}
use fbs_interlock_gateway.Text.{Text, is_empty}
use fbs_interlock_gateway.Text.Laws.{text_eq_refl, ne→text_eq}
use fbs_interlock_gateway.Dict.{int_key, text_key, lookup, lookup-insert}
use fbs_interlock_gateway.Config.{Tool, Config, clone, apply_defaults}
use fbs_interlock_gateway.ConfigStore.{
  roll_back, Faults, Disk, Known, name_key, note_existing, note_all, known_tools, preserved,
  transaction, write_mirror, finish_replace, replace,
}
use fbs_interlock_gateway.ConfigStore.Schema.{Row, Db, StoreError}

-- A replacement that returns an error leaves the database and the mirror as they were, at whichever
-- statement it failed. Otherwise the mirror holds the configuration with its defaults if one is
-- wanted and configured and can be written, and else what it held.
pub replace_outcome :
    (faults : Faults) (path now : Text) (raw : Config) (wanted : Bool) (disk : Disk)
    → let (result, disk') = replace faults path now raw wanted disk in
      ((e : StoreError) × (result ≡ err e) × (disk' ≡ disk))
      ⊎ ((result ≡ ok tt)
          × (disk'.mirror ≡ (
              if wanted && not (is_empty path) && not faults.mirror
              then some (clone (apply_defaults raw))
              else disk.mirror)))
unfolding replace finish_replace write_mirror roll_back
replace_outcome faults path now raw wanted disk =
    finished (transaction faults now (clone (apply_defaults raw)) disk.db)
  where
    finished :
        (r : Result (StoreError × Db) Db)
        → let (result, disk') =
            finish_replace faults wanted path (clone (apply_defaults raw)) r disk in
          ((e : StoreError) × (result ≡ err e) × (disk' ≡ disk))
          ⊎ ((result ≡ ok tt)
              × (disk'.mirror ≡ (
                  if wanted && not (is_empty path) && not faults.mirror
                  then some (clone (apply_defaults raw))
                  else disk.mirror)))
    finished (ok db) = inr (refl, refl)
    finished (err (x, written)) = inl (x, refl, refl)

abbrev Unnamed : Text → List Row → Type 0
Unnamed key = All (λ r. name_key r.interlock_name ≢ key)

by_name-note_all :
    (key : Text) (items : List Row) (k : Known)
    → Unnamed key items
    → (lookup key (note_all items k).by_name ≡ lookup key k.by_name)
      × (lookup key (note_all items k).name_count ≡ lookup key k.name_count)
unfolding note_all note_existing
by_name-note_all key [] k h = (refl, refl)
by_name-note_all key (item ∷ items) k h =
    let (names, counts) = by_name-note_all key items (note_existing item k) h.1 in
    let other = ne→text_eq (name_key item.interlock_name) key h.0 in
    (names ∙ rw (lookup-insert, other), counts ∙ rw (lookup-insert, other))

note_all-append :
    (xs ys : List Row) (k : Known) → note_all (xs ++ ys) k ≡ note_all ys (note_all xs k)
unfolding note_all
note_all-append [] ys k = refl
note_all-append (x ∷ xs) ys k = note_all-append xs ys (note_existing x k)

abbrev empty_known : Known
empty_known = record { by_port = []; name_count = []; by_name = []; next_id = 1 }

module _ (before after : List Row) (item : Row) where
  abbrev key : Text
  key = name_key item.interlock_name

  abbrev all_known : Known
  all_known = note_all after (note_existing item (note_all before empty_known))

  named : Unnamed key after → lookup key all_known.by_name ≡ some item
  unfolding note_existing
  named ha =
      (by_name-note_all key after (note_existing item (note_all before empty_known)) ha).0
      ∙ rw (lookup-insert, text_eq_refl key)

  counted : Unnamed key before → Unnamed key after → lookup key all_known.name_count ≡ some 1
  unfolding note_existing lookup
  counted hb ha =
      (by_name-note_all key after (note_existing item (note_all before empty_known)) ha).1
      ∙ rw (lookup-insert, text_eq_refl key, (by_name-note_all key before empty_known hb).1)

  -- A tool whose name, without regard to case and surrounding blanks, is that of exactly one stored
  -- tool keeps the identity of that tool, whatever its port.
  pub preserved_of_unique_name :
      (t : Tool)
      → name_key t.interlock_name ≡ name_key item.interlock_name
      → Unnamed (name_key item.interlock_name) before
      → Unnamed (name_key item.interlock_name) after
      → preserved (known_tools (before ++ item ∷ after)) t ≡ some item
  unfolding preserved known_tools note_all
  preserved_of_unique_name t e hb ha =
      rw (e, note_all-append before (item ∷ after) empty_known, counted hb ha, named ha)

next_id-note_all :
    (items : List Row) (k : Known)
    → (k.next_id ≤ (note_all items k).next_id) × All (λ r. r.id < (note_all items k).next_id) items
unfolding note_all note_existing
next_id-note_all [] k = (omega arith, tt)
next_id-note_all (item ∷ items) k =
    let (up, above) = next_id-note_all items (note_existing item k) in
    (ground (arith, up), (ground (arith, up), above))

-- The ids that new tools are given are above every id that is stored, so a new id is never one that
-- another tool keeps.
pub next_id-known_tools :
    (existing : List Row) → All (λ r. r.id < (known_tools existing).next_id) existing
unfolding known_tools
next_id-known_tools existing = (next_id-note_all existing _).1
