-- ===== src/ConfigStore/Schema.antt =====
-- The tables of `schemaV1` (internal/configstore/store.go) and what an insertion checks.
use fbs_interlock_gateway.Prelude.{
  ltb, leb, ◌==◌, if◌then◌else◌, length, any, ℤ, pos, ltb_ℤ, eqb_ℤ, Result, ok, ◌>>◌, fail_if, ℕ,
  Bool, true, not, ◌&&◌, ◌||◌, Option, none, some, List, [], ◌∷◌, ◌++◌,
}
use fbs_interlock_gateway.Text.{Text, codes, in_range, to_lower, text_eq}
use fbs_interlock_gateway.Config.{ConfigError}

pub record Settings : Type 0 where
  pub bind : Text
  pub timeout_ms : ℤ
  pub safe_state_on_error : Text
  pub server_ca_file : Text
  pub client_cert_file : Text
  pub client_key_file : Text
  pub updated_at : Text

pub record Row : Type 0 where
  pub id : ℕ
  pub sort_order : ℕ
  pub interlock_name : Text
  pub ip : Text
  pub protocol : Text
  pub port : ℤ
  pub switch_id : ℤ
  pub username : Option Text
  pub password : Option Text
  pub enabled : ℕ
  pub created_at : Text
  pub updated_at : Text

pub record Db : Type 0 where
  pub settings : Option Settings
  pub tools : List Row

pub data SqlError : Type 0 where
  engine_fault check_failed unique_failed : SqlError

pub data StoreError : Type 0 where
  invalid_config database_invalid : ConfigError → StoreError
  begin_failed load_existing_failed settings_failed delete_failed commit_failed : StoreError
  insert_failed : SqlError → StoreError
  uninitialized : StoreError

-- SQL's `trim`, which takes spaces away and no other blanks.
unfoldable pub sql_trim_left : Text → Text
sql_trim_left [] = []
sql_trim_left (c ∷ s) = if c == 32 then sql_trim_left s else c ∷ s

abbrev keep_unless_space : ℕ → Text → Text
keep_unless_space c [] = if c == 32 then [] else c ∷ []
keep_unless_space c (d ∷ s) = c ∷ d ∷ s

unfoldable pub sql_trim_right : Text → Text
sql_trim_right [] = []
sql_trim_right (c ∷ s) = keep_unless_space c (sql_trim_right s)

unfoldable pub sql_trim : Text → Text
unfolding sql_trim_left sql_trim_right
sql_trim s = sql_trim_right (sql_trim_left s)

unfoldable pub is_alphanumeric : ℕ → Bool
is_alphanumeric c = in_range b'0' b'9' c || in_range b'A' b'Z' c || in_range b'a' b'z' c

unfoldable pub password_ok : Option Text → Bool
unfolding is_alphanumeric
password_ok none = true
password_ok (some p) = (length p == 32) && not (any (λ c. not (is_alphanumeric c)) p)

-- The checks of the columns of `tools`.
unfoldable pub row_ok : Row → Bool
unfolding sql_trim password_ok
row_ok r =
    text_eq r.interlock_name (sql_trim r.interlock_name)
    && leb 1 (length r.interlock_name)
    && leb (length r.interlock_name) 16
    && ltb 0 (length (sql_trim r.ip))
    && (text_eq r.protocol (codes "http") || text_eq r.protocol (codes "https"))
    && not (ltb_ℤ r.port (pos 8081))
    && not (ltb_ℤ (pos 8981) r.port)
    && not (ltb_ℤ r.switch_id (pos 0))
    && password_ok r.password
    && ((r.enabled == 0) || (r.enabled == 1))

-- Whether two rows share the primary key or a unique column.
unfoldable pub clashes : Row → Row → Bool
clashes r s =
    (r.id == s.id)
    || text_eq r.interlock_name s.interlock_name
    || text_eq r.ip s.ip
    || eqb_ℤ r.port s.port
    || (r.sort_order == s.sort_order)

unfoldable pub insert_row : Bool → Row → List Row → Result SqlError (List Row)
insert_row fault r rows = do
  fail_if fault engine_fault
  fail_if (not (row_ok r)) check_failed
  fail_if (any (clashes r) rows) unique_failed
  ok (rows ++ r ∷ [])

-- The checks of the columns of `gateway_settings`.
unfoldable pub settings_ok : Settings → Bool
settings_ok s =
    ltb_ℤ (pos 0) s.timeout_ms
    && (text_eq (to_lower s.safe_state_on_error) (codes "on")
        || text_eq (to_lower s.safe_state_on_error) (codes "off"))
