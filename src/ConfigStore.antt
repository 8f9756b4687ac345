-- ===== src/ConfigStore.antt =====
-- internal/configstore/store.go: the configuration in a SQLite database.
-- The tables are records with the checks and the unique columns of `schemaV1`. What the engine and
-- the disk do beyond that, namely to fail at a statement, is the argument `Faults`.
pub mod Schema
pub mod Commit
pub mod Identity
pub mod RoundTrip
pub mod Loading
pub mod Collision
pub mod Mirror
pub mod Opening
use fbs_interlock_gateway.Prelude.{
  leb, ◌==◌, if◌then◌else◌, ℤ, Result, ok, err, ◌>>=◌, ◌>>◌, fail_if, wrap_err, ℕ, suc, ◌+◌, Bool,
  true, false, not, ◌&&◌, ◌||◌, Option, none, some, List, [], ◌∷◌, map,
}
use fbs_interlock_gateway.Text.{Text, is_empty, trim_space, to_lower}
use fbs_interlock_gateway.Dict.{int_key, text_key, Dict, lookup, insert}
use fbs_interlock_gateway.Config
use fbs_interlock_gateway.Config.{Tool, Config, clone, apply_defaults, tool_protocol, validate}
use Schema.{
  Settings, Row, Db, StoreError, invalid_config, database_invalid, begin_failed,
  load_existing_failed, settings_failed, delete_failed, commit_failed, insert_failed, uninitialized,
  insert_row, settings_ok,
}

-- Which statements fail for a reason outside the schema: a full or locked disk, for instance.
pub record Faults : Type 0 where
  pub begin : Bool
  pub load_existing : Bool
  pub write_settings : Bool
  pub delete_tools : Bool
  pub insert_at : ℕ → Bool
  pub commit : Bool
  pub mirror : Bool

abbrev pub no_faults : Faults
no_faults = record {
  begin = false;
  load_existing = false;
  write_settings = false;
  delete_tools = false;
  insert_at = λ _. false;
  commit = false;
  mirror = false;
}

-- The database, and the YAML mirror as the configuration that was last written to it.
pub record Disk : Type 0 where
  pub db : Db
  pub mirror : Option Config

-- `existing`, and the maps that `replace` makes from it. Ids are below 2^63.
pub record Known : Type 0 where
  pub by_port : Dict ℤ Row
  pub name_count : Dict Text ℕ
  pub by_name : Dict Text Row
  pub next_id : ℕ

abbrev count_of : Option ℕ → ℕ
count_of none = 0
count_of (some n) = n

unfoldable pub name_key : Text → Text
name_key name = to_lower (trim_space name)

unfoldable pub note_existing : Row → Known → Known
note_existing item k =
    let key = name_key item.interlock_name in
    record {
      by_port = insert item.port item k.by_port;
      name_count = insert key (count_of (lookup key k.name_count) + 1) k.name_count;
      by_name = insert key item k.by_name;
      next_id = if leb k.next_id item.id then item.id + 1 else k.next_id;
    }

unfoldable pub note_all : List Row → Known → Known
unfolding note_existing
note_all [] k = k
note_all (item ∷ items) k = note_all items (note_existing item k)

unfoldable pub known_tools : List Row → Known
unfolding note_all
known_tools existing =
    note_all existing (record { by_port = []; name_count = []; by_name = []; next_id = 1 })

abbrev or_else : Option Row → Option Row → Option Row
or_else none o = o
or_else (some item) o = some item

-- The item whose identity a tool keeps: the only one of its name, else the one at its port.
unfoldable pub preserved : Known → Tool → Option Row
unfolding name_key
preserved k t =
    let key = name_key t.interlock_name in
    or_else (if count_of (lookup key k.name_count) == 1 then lookup key k.by_name else none)
      (lookup t.port k.by_port)

-- `insertTool`: the row that is written for a tool.
unfoldable pub tool_row : ℕ → ℕ → Tool → Text → Text → Row
tool_row id index t created_at now = record {
  id = id;
  sort_order = index;
  interlock_name = trim_space t.interlock_name;
  ip = trim_space t.ip;
  protocol = tool_protocol t;
  port = t.port;
  switch_id = t.switch_id;
  username = t.username;
  password = t.password;
  enabled = if t.enabled then 1 else 0;
  created_at = created_at;
  updated_at = now;
}

-- The row of a tool and the next free id.
unfoldable pub identified : Option Row → ℕ → ℕ → Tool → Text → Row × ℕ
identified (some item) next_id index t now = (tool_row item.id index t item.created_at now, next_id)
identified none next_id index t now = (tool_row next_id index t now now, next_id + 1)

-- The loop over `cfg.Tools`, from the row that `index` counts. An error comes with the rows that were
-- inserted before it.
unfoldable pub insert_tools :
    Faults → Known → Text → ℕ → ℕ → List Tool → List Row → Result (StoreError × List Row) (List Row)
insert_tools faults k now index next_id [] rows = ok rows
insert_tools faults k now index next_id (t ∷ ts) rows =
    let (row, next_id') = identified (preserved k t) next_id index t now in
    wrap_err (λ e. (insert_failed e, rows)) (insert_row (faults.insert_at index) row rows)
    >>= λ rows'. insert_tools faults k now (suc index) next_id' ts rows'

unfoldable pub settings_of : Config → Text → Settings
settings_of cfg now = record {
  bind = cfg.bind;
  timeout_ms = cfg.defaults.timeout_ms;
  safe_state_on_error = to_lower (trim_space cfg.defaults.safe_state_on_error);
  server_ca_file = cfg.defaults.shelly_tls.server_ca_file;
  client_cert_file = cfg.defaults.shelly_tls.client_cert_file;
  client_key_file = cfg.defaults.shelly_tls.client_key_file;
  updated_at = now;
}

-- The committed database, or an error with what the statements had made of the database before it.
unfoldable pub transaction : Faults → Text → Config → Db → Result (StoreError × Db) Db
transaction faults now cfg db = do
  wrap_err (λ e. (invalid_config e, db)) (validate cfg)
  fail_if faults.begin (begin_failed, db)
  fail_if faults.load_existing (load_existing_failed, db)
  let settings = settings_of cfg now
  fail_if (faults.write_settings || not (settings_ok settings)) (settings_failed, db)
  fail_if faults.delete_tools (delete_failed, record db { settings = some settings })
  let k = known_tools db.tools
  rows ←
      wrap_err (λ p. (p.0, record { settings = some settings; tools = p.1 }))
        (insert_tools faults k now 0 k.next_id cfg.tools [])
  fail_if faults.commit (commit_failed, record { settings = some settings; tools = rows })
  ok (record { settings = some settings; tools = rows })

-- The deferred `tx.Rollback`: the database that was committed before, in place of what was written.
unfoldable pub roll_back : Db → Db → Db
roll_back committed written = committed

-- A mirror that cannot be written is logged, and the replacement stands.
unfoldable pub write_mirror : Faults → Bool → Text → Config → Option Config → Option Config
write_mirror faults wanted path cfg old =
    if wanted && not (is_empty path) && not faults.mirror then some cfg else old

unfoldable pub finish_replace :
    Faults
    → Bool
    → Text
    → Config
    → Result (StoreError × Db) Db
    → Disk
    → Result StoreError (Unit {0}) × Disk
unfolding roll_back
finish_replace faults wanted path cfg (err (e, written)) disk =
    (err e, record disk { db = roll_back disk.db written })
finish_replace faults wanted path cfg (ok db) disk =
    (ok tt, record { db = db; mirror = write_mirror faults wanted path cfg disk.mirror })

-- `replace`, with the mirror's path and the time that `time.Now` gives.
unfoldable pub replace :
    Faults → Text → Text → Config → Bool → Disk → Result StoreError (Unit {0}) × Disk
unfolding finish_replace
replace faults path now raw wanted disk =
    let cfg = clone (apply_defaults raw) in
    finish_replace faults wanted path cfg (transaction faults now cfg disk.db) disk

-- `Replace`; `Initialize` is the same without the mirror.
unfoldable pub replace_config :
    Faults → Text → Text → Config → Disk → Result StoreError (Unit {0}) × Disk
unfolding replace
replace_config faults path now cfg disk = replace faults path now cfg true disk

unfoldable pub initialize :
    Faults → Text → Text → Config → Disk → Result StoreError (Unit {0}) × Disk
unfolding replace
initialize faults path now cfg disk = replace faults path now cfg false disk

-- The scan of a row of `tools`.
unfoldable pub tool_of_row : Row → Tool
tool_of_row r = record {
  interlock_name = r.interlock_name;
  ip = r.ip;
  protocol = r.protocol;
  port = r.port;
  switch_id = r.switch_id;
  username = r.username;
  password = r.password;
  enabled = not (r.enabled == 0);
}

-- `ORDER BY sort_order`
unfoldable pub place_row : Row → List Row → List Row
place_row r [] = r ∷ []
place_row r (s ∷ rows) =
    if leb r.sort_order s.sort_order then r ∷ s ∷ rows else s ∷ place_row r rows

unfoldable pub by_sort_order : List Row → List Row
unfolding place_row
by_sort_order [] = []
by_sort_order (r ∷ rows) = place_row r (by_sort_order rows)

unfoldable pub config_of : Settings → List Row → Config
unfolding by_sort_order tool_of_row
config_of s rows = record {
  bind = s.bind;
  defaults = record {
    timeout_ms = s.timeout_ms;
    safe_state_on_error = s.safe_state_on_error;
    shelly_tls = record {
      server_ca_file = s.server_ca_file;
      client_cert_file = s.client_cert_file;
      client_key_file = s.client_key_file;
    };
  };
  tools = map tool_of_row (by_sort_order rows);
}

unfoldable pub load_settings : Option Settings → List Row → Result StoreError Config
unfolding config_of
load_settings none rows = err uninitialized
load_settings (some s) rows =
    let cfg = apply_defaults (config_of s rows) in
    do wrap_err database_invalid (validate cfg); ok (clone cfg)

-- `Load`, on a database that can be read.
unfoldable pub load : Db → Result StoreError Config
unfolding load_settings
load db = load_settings db.settings db.tools
