-- ===== src/ConfigStore/Collision.antt =====
-- A tool that moves to another port and a new tool at its old port, in `replace` of
-- internal/configstore/store.go.
use fbs_interlock_gateway.Prelude.{
  eqb_ℤ_iff, ok, ℕ, ◌≡◌, ◌≢◌, Bool, Option, some, List, [], ◌∷◌, ◌++◌, map, arith,
}
use fbs_interlock_gateway.Text.{Text}
use fbs_interlock_gateway.Text.Laws.{text_eq_refl, text_eq_iff}
use fbs_interlock_gateway.Dict.{int_key, text_key, lookup, insert}
use fbs_interlock_gateway.Config.{Tool, Config, clone_tool, clone, apply_defaults}
use fbs_interlock_gateway.ConfigStore.{
  Faults, Disk, Known, name_key, note_existing, note_all, known_tools, preserved, tool_row,
  identified, insert_tools, transaction, replace,
}
use fbs_interlock_gateway.ConfigStore.Schema.{Settings, Row, Db, clashes}
use fbs_interlock_gateway.ConfigStore.Commit.{
  finish_replace-ok, clone_tool_lem, insert_tools-ok, transaction-ok,
}

module _ (item : Row) (t : Tool) where
  preserved_by_name :
      name_key t.interlock_name ≡ name_key item.interlock_name
      → preserved (known_tools (item ∷ [])) t ≡ some item
  unfolding preserved known_tools note_all note_existing lookup insert
  preserved_by_name e = rw (e, text_eq_refl (name_key item.interlock_name))

  preserved_by_port :
      name_key t.interlock_name ≢ name_key item.interlock_name
      → t.port ≡ item.port
      → preserved (known_tools (item ∷ [])) t ≡ some item
  unfolding preserved known_tools note_all note_existing lookup insert
  preserved_by_port ne e = ground (
    arith,
    text_eq_iff (name_key item.interlock_name) (name_key t.interlock_name),
    eqb_ℤ_iff item.port t.port,
  )

module _ (faults : Faults) (now : Text) (k : Known) (item : Row) (t₁ t₂ : Tool)
    (ts : List Tool) where
  insert_tools-same_id :
      (next_id : ℕ) {rows : List Row}
      → preserved k t₁ ≡ some item
      → preserved k t₂ ≡ some item
      → insert_tools faults k now 0 next_id (t₁ ∷ t₂ ∷ ts) [] ≢ ok rows
  unfolding identified tool_row clashes
  insert_tools-same_id next_id e₁ e₂ h =
      let (_, _, h₁) = insert_tools-ok faults k now 0 next_id t₁ (t₂ ∷ ts) [] h in
      let (_, free, _) =
        insert_tools-ok faults k now 1 (identified (preserved k t₁) next_id 0 t₁ now).1 t₂ ts
          ([] ++ (identified (preserved k t₁) next_id 0 t₁ now).0 ∷ []) h₁ in
      ground (arith, e₁, e₂)

-- With one tool stored, a configuration whose first tool has its name, in any case and at any port,
-- and whose second tool has another name and its port is never stored: whatever else stands in the
-- configuration, `replace` returns an error.
pub replace-moved_tool_fails :
    (faults : Faults) (path now : Text) (raw : Config) (wanted : Bool) (item : Row) (t₁ t₂ : Tool)
    (ts : List Tool) (settings : Option Settings) (mirror : Option Config)
    → name_key t₁.interlock_name ≡ name_key item.interlock_name
    → name_key t₂.interlock_name ≢ name_key item.interlock_name
    → t₂.port ≡ item.port
    → (replace faults path now
        (record raw { tools = t₁ ∷ t₂ ∷ ts })
        wanted
        (record { db = record { settings = settings; tools = item ∷ [] }; mirror = mirror })).0
      ≢ ok tt
unfolding replace clone apply_defaults
replace-moved_tool_fails faults path now raw wanted item t₁ t₂ ts settings mirror same other moved
      h =
    let cfg = clone (apply_defaults (record raw { tools = t₁ ∷ t₂ ∷ ts })) in
    let db : Db = record { settings = settings; tools = item ∷ [] } in
    let disk : Disk = record { db = db; mirror = mirror } in
    let (_, committed, _) =
      finish_replace-ok faults wanted path cfg (transaction faults now cfg db) disk h in
    let (_, _, _, inserted, _) = transaction-ok faults now cfg db committed in
    insert_tools-same_id faults now (known_tools (item ∷ [])) item (clone_tool t₁) (clone_tool t₂)
      (map clone_tool ts) (known_tools (item ∷ [])).next_id
      (rw (clone_tool_lem t₁) (preserved_by_name item t₁ same))
      (rw (clone_tool_lem t₂) (preserved_by_port item t₂ other moved)) inserted
