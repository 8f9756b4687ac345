-- ===== src/ConfigStore/Commit.antt =====
-- What is known of a transaction of `replace` (internal/configstore/store.go) that went through.
use fbs_interlock_gateway.Prelude.{
  fail_if-eq-ok, ok-injective, sym, any, Result, ok, err, wrap_err, >>=-eq-ok, ℕ, suc, ◌≡◌, refl,
  Bool, true, false, not, ◌||◌, some, List, [], ◌∷◌, ◌++◌, map, arith,
}
use fbs_interlock_gateway.Text.{Text}
use fbs_interlock_gateway.Dict.{int_key, text_key}
use fbs_interlock_gateway.Config.{Tool, Config, clone_tool, clone, validate}
use fbs_interlock_gateway.ConfigStore.{
  Faults, Disk, Known, known_tools, preserved, identified, insert_tools, settings_of, transaction,
  finish_replace,
}
use fbs_interlock_gateway.ConfigStore.Schema.{
  SqlError, Row, Db, StoreError, invalid_config, insert_failed, row_ok, clashes, insert_row,
  settings_ok,
}

pub finish_replace-ok :
    (faults : Faults) (wanted : Bool) (path : Text) (cfg : Config) (r : Result (StoreError × Db) Db)
    (disk : Disk)
    → (finish_replace faults wanted path cfg r disk).0 ≡ ok tt
    → (db : Db) × (r ≡ ok db) × ((finish_replace faults wanted path cfg r disk).1.db ≡ db)
unfolding finish_replace
finish_replace-ok faults wanted path cfg (ok db) disk h = (db, refl, refl)
finish_replace-ok faults wanted path cfg (err e) disk h = cc

pub clone_tool_lem : (t : Tool) → clone_tool t ≡ t
unfolding clone_tool
clone_tool_lem t = ground arith

pub clone_lem : (cfg : Config) → clone cfg ≡ cfg
unfolding clone
clone_lem cfg = λ i. record cfg { tools = go cfg.tools i }
  where
    go : (ts : List Tool) → map clone_tool ts ≡ ts
    go [] = refl
    go (t ∷ ts) = cc (clone_tool_lem t, go ts)

pub insert_row-ok :
    (fault : Bool) (r : Row) (rows : List Row) {rows' : List Row}
    → insert_row fault r rows ≡ ok rows'
    → (rows' ≡ rows ++ r ∷ []) × (row_ok r ≡ true) × (any (clashes r) rows ≡ false)
unfolding insert_row
insert_row-ok fault r rows h = (ground arith, ground arith, ground arith)

pub wrap_err-ok :
    {E F A : Type 0} (f : E → F) (m : Result E A) {a : A} → wrap_err f m ≡ ok a → m ≡ ok a
wrap_err-ok f (ok a) h = cc
wrap_err-ok f (err e) h = cc

-- One round of the loop, when the transaction goes through.
pub insert_tools-ok :
    (faults : Faults) (k : Known) (now : Text) (index next_id : ℕ) (t : Tool) (ts : List Tool)
    (rows : List Row) {rows' : List Row}
    → insert_tools faults k now index next_id (t ∷ ts) rows ≡ ok rows'
    → let (row, next_id') = identified (preserved k t) next_id index t now in
      (row_ok row ≡ true)
      × (any (clashes row) rows ≡ false)
      × (insert_tools faults k now (suc index) next_id' ts (rows ++ row ∷ []) ≡ ok rows')
unfolding insert_tools
insert_tools-ok faults k now index next_id t ts rows h =
    let row = (identified (preserved k t) next_id index t now).0 in
    let inserted = insert_row (faults.insert_at index) row rows in
    let failed : SqlError → StoreError × List Row = λ e. (insert_failed e, rows) in
    let (rows₁, e, rest) = >>=-eq-ok (wrap_err failed inserted) _ h in
    let (same, valid, free) =
      insert_row-ok (faults.insert_at index) row rows (wrap_err-ok failed inserted e) in
    (valid, free, rw same at rest)

pub transaction-ok :
    (faults : Faults) (now : Text) (cfg : Config) (db : Db) {db' : Db}
    → transaction faults now cfg db ≡ ok db'
    → (rows : List Row) × (validate cfg ≡ ok tt)
      × (settings_ok (settings_of cfg now) ≡ true)
      × (insert_tools faults
            (known_tools db.tools)
            now
            0
            (known_tools db.tools).next_id
            cfg.tools
            []
          ≡ ok rows)
      × (db' ≡ record { settings = some (settings_of cfg now); tools = rows })
unfolding transaction
transaction-ok faults now cfg db h =
    let settings = settings_of cfg now in
    let k = known_tools db.tools in
    let (_, valid, h₁) = >>=-eq-ok (wrap_err (λ e. (invalid_config e, db)) (validate cfg)) _ h in
    let (_, h₂) = fail_if-eq-ok faults.begin _ _ h₁ in
    let (_, h₃) = fail_if-eq-ok faults.load_existing _ _ h₂ in
    let (written, h₄) =
      fail_if-eq-ok (faults.write_settings || not (settings_ok settings)) _ _ h₃ in
    let (_, h₅) = fail_if-eq-ok faults.delete_tools _ _ h₄ in
    let (rows, inserted, h₆) =
      >>=-eq-ok (wrap_err _ (insert_tools faults k now 0 k.next_id cfg.tools [])) _ h₅ in
    let (_, h₇) = fail_if-eq-ok faults.commit _ _ h₆ in
    (
      rows,
      wrap_err-ok _ (validate cfg) valid,
      ground (arith, written),
      wrap_err-ok _ (insert_tools faults k now 0 k.next_id cfg.tools []) inserted,
      sym (ok-injective h₇),
    )
