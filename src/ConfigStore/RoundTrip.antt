-- ===== src/ConfigStore/RoundTrip.antt =====
-- The rows that `replace` writes and `Load` reads, in internal/configstore/store.go.
use mathlib.Core.List.{append-nil, append_assoc, map-append}
use fbs_interlock_gateway.Prelude.{
  All, All-map, All-append, ok, ℕ, suc, ◌≤◌, ◌<◌, ◌≡◌, refl, Option, none, some, List, [], ◌∷◌,
  ◌++◌, map, arith,
}
use fbs_interlock_gateway.Text.{Text, trim_space, to_lower}
use fbs_interlock_gateway.Dict.{int_key, text_key}
use fbs_interlock_gateway.Config.{Tool, Config, tool_protocol}
use fbs_interlock_gateway.ConfigStore.{
  Faults, Known, preserved, tool_row, identified, insert_tools, tool_of_row, by_sort_order,
}
use fbs_interlock_gateway.ConfigStore.Schema.{Row}
use fbs_interlock_gateway.ConfigStore.Commit.{insert_tools-ok}

-- A tool as the database keeps it: its name and address without surrounding blanks, and its
-- protocol spelled out.
abbrev pub stored_tool : Tool → Tool
stored_tool t = record t {
  interlock_name = trim_space t.interlock_name;
  ip = trim_space t.ip;
  protocol = tool_protocol t;
}

abbrev pub stored_config : Config → Config
stored_config cfg = record cfg {
  defaults = record defaults {
    safe_state_on_error = to_lower (trim_space defaults.safe_state_on_error);
  };
  tools = map stored_tool cfg.tools;
}
  where
    open cfg use {defaults}

tool_of_row-tool_row :
    (id index : ℕ) (t : Tool) (created now : Text)
    → tool_of_row (tool_row id index t created now) ≡ stored_tool t
unfolding tool_of_row tool_row
tool_of_row-tool_row id index t created now = ground arith

tool_of_row-identified :
    (o : Option Row) (n index : ℕ) (t : Tool) (now : Text)
    → tool_of_row (identified o n index t now).0 ≡ stored_tool t
unfolding identified
tool_of_row-identified none n index t now = tool_of_row-tool_row n index t now now
tool_of_row-identified (some item) n index t now =
    tool_of_row-tool_row item.id index t item.created_at now

sort_order-identified :
    (o : Option Row) (n index : ℕ) (t : Tool) (now : Text)
    → (identified o n index t now).0.sort_order ≡ index
unfolding identified tool_row
sort_order-identified none n index t now = refl
sort_order-identified (some item) n index t now = refl

abbrev pub Ascending : List Row → Type 0
Ascending [] = Unit
Ascending (r ∷ rows) = All (λ s. r.sort_order ≤ s.sort_order) rows × Ascending rows

abbrev pub Below : ℕ → List Row → Type 0
Below n = All (λ r. r.sort_order < n)

Ascending-append :
    (rows : List Row) (r : Row)
    → Below r.sort_order rows
    → Ascending rows
    → Ascending (rows ++ r ∷ [])
Ascending-append [] r h a = (tt, tt)
Ascending-append (s ∷ rows) r h a = (
  All-append (λ x. s.sort_order ≤ x.sort_order) rows (r ∷ []) a.0 (omega arith, tt),
  Ascending-append rows r h.1 a.1,
)

pub by_sort_order-Ascending : (rows : List Row) → Ascending rows → by_sort_order rows ≡ rows
unfolding by_sort_order
by_sort_order-Ascending [] a = refl
by_sort_order-Ascending (r ∷ []) a = refl
by_sort_order-Ascending (r ∷ s ∷ rows) a =
    rw (by_sort_order-Ascending (s ∷ rows) a.1) (ground arith)

-- The rows of a transaction that went through are the tools in their order.
pub inserted_rows :
    (faults : Faults) (k : Known) (now : Text) (index next_id : ℕ) (ts : List Tool)
    (rows : List Row) {rows' : List Row}
    → insert_tools faults k now index next_id ts rows ≡ ok rows'
    → Below index rows
    → Ascending rows
    → Ascending rows' × (map tool_of_row rows' ≡ map tool_of_row rows ++ map stored_tool ts)
unfolding insert_tools
inserted_rows faults k now index next_id [] rows {rows' = out} h b a =
    let e : rows ≡ out = ground arith in rw (← e) (a, rw append-nil)
inserted_rows faults k now index next_id (t ∷ ts) rows h b a =
    let row = (identified (preserved k t) next_id index t now).0 in
    let next_id' = (identified (preserved k t) next_id index t now).1 in
    let here : row.sort_order ≡ index = sort_order-identified (preserved k t) next_id index t now in
    let (_, _, rest) = insert_tools-ok faults k now index next_id t ts rows h in
    let (a', e) =
      inserted_rows faults k now (suc index) next_id' ts (rows ++ row ∷ []) rest
        (All-append (λ (r : Row). r.sort_order < suc index) rows (row ∷ [])
          (All-map (λ r lt. omega arith) rows b) (omega arith, tt))
        (Ascending-append rows row (rw here b) a) in
    (
      a',
      simp
          (e, map-append, append_assoc, tool_of_row-identified (preserved k t) next_id index t now),
    )
