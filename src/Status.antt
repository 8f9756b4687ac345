-- ===== src/Status.antt =====
-- internal/status/store.go: the latest known state of every tool. The mutex makes each method one
-- step, so concurrent callers are sequences of the operations below.
pub mod Consistency
pub mod Ordering
pub mod Freshness
pub mod Placeholders
use fbs_interlock_gateway.Prelude.{
  ltb, if◌then◌else◌, ℤ, ℕ, ◌+◌, ◌%◌, ◌^◌, Bool, true, false, not, Option, none, some, List, [],
  ◌∷◌, ◌++◌,
}
use fbs_interlock_gateway.Text.{Text, codes}
use fbs_interlock_gateway.Dict.{int_key, text_key, Dict, lookup, insert}
use fbs_interlock_gateway.Config.{Tool, Config, tool_protocol}

pub record ToolStatus : Type 0 where
  pub interlock_name : Text
  pub ip : Text
  pub protocol : Text
  pub port : ℤ
  pub switch_id : ℤ
  pub enabled : Bool
  pub connected : Bool
  pub output : Bool
  pub error : Text
  pub revision : ℕ  -- uint64

pub record Store : Type 0 where
  pub statuses : Dict ℤ ToolStatus
  pub order : List ℤ
  pub next : ℕ  -- atomic uint64

abbrev pub not_yet_refreshed_error : Text
not_yet_refreshed_error = codes "status not yet refreshed"

abbrev pub u64 : ℕ → ℕ
u64 n = n % 2 ^ 64

unfoldable pub tool_status : Tool → ToolStatus
tool_status t = record {
  interlock_name = t.interlock_name;
  ip = t.ip;
  protocol = tool_protocol t;
  port = t.port;
  switch_id = t.switch_id;
  enabled = t.enabled;
  connected = false;
  output = false;
  error = [];
  revision = 0;
}

-- The row that `New` gives a tool.
pub placeholder : Bool → Tool → ToolStatus
unfolding tool_status
placeholder safe t =
    if t.enabled
    then record (tool_status t) { output = safe; error = not_yet_refreshed_error }
    else tool_status t

-- A port that has no row yet joins the order.
abbrev join_order : Option ToolStatus → ℤ → List ℤ → List ℤ
join_order none p order = order ++ p ∷ []
join_order (some _) p order = order

-- The writes at the end of `Record`, also those of the loop of `New`.
pub put_row : ToolStatus → Store → Store
put_row row s = record s {
  statuses = insert row.port row s.statuses;
  order = join_order (lookup row.port s.statuses) row.port s.order;
}

add_tools : Bool → List Tool → Store → Store
unfolding put_row placeholder
add_tools safe [] s = s
add_tools safe (t ∷ ts) s = add_tools safe ts (put_row (placeholder safe t) s)

pub new : Config → Bool → Store
unfolding add_tools
new cfg safe = add_tools safe cfg.tools (record { statuses = []; order = []; next = 0 })

-- `s.next.Add(1)`
pub next_revision : Store → ℕ × Store
next_revision s = let n = u64 (s.next + 1) in (n, record s { next = n })

-- Whether `Record` returns early: the row there is newer.
is_stale : ℕ → Option ToolStatus → Bool
is_stale revision none = false
is_stale revision (some current) = ltb revision current.revision

pub record_row : ToolStatus → ℕ → Store → Store
unfolding is_stale put_row
record_row row revision s =
    if is_stale revision (lookup row.port s.statuses)
    then s
    else put_row (record row { revision = revision }) s

unfoldable pub record_success : Tool → Bool → ℕ → Store → Store
unfolding record_row tool_status
record_success t output revision s =
    record_row (record (tool_status t) { connected = true; output = output }) revision s

-- `err.Error()`, or no text for a nil error.
message_of : Option Text → Text
message_of none = []
message_of (some m) = m

unfoldable pub record_failure : Tool → Bool → Option Text → ℕ → Store → Store
unfolding record_row tool_status message_of
record_failure t safe error revision s =
    record_row (record (tool_status t) { output = safe; error = message_of error }) revision s

abbrev cons_found : Option ToolStatus → List ToolStatus → List ToolStatus
cons_found none rows = rows
cons_found (some row) rows = row ∷ rows

rows_at : Dict ℤ ToolStatus → List ℤ → List ToolStatus
rows_at d [] = []
rows_at d (p ∷ ps) = cons_found (lookup p d) (rows_at d ps)

pub snapshot : Store → List ToolStatus
unfolding rows_at
snapshot s = rows_at s.statuses s.order
