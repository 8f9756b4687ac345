-- ===== src/Admin/Update.antt =====
-- internal/admin/server.go: what GET and PUT of the configuration read and write. The JSON codec is
-- not modelled: a request is what was decoded, a response what is to be encoded.
pub mod Saving
use fbs_interlock_gateway.Prelude.{
  if◌then◌else◌, ℤ, pos, Bool, false, not, Option, none, some, List, [], ◌∷◌, map,
}
use fbs_interlock_gateway.Text.{Text, is_empty, trim_space, to_lower}
use fbs_interlock_gateway.Dict.{int_key, text_key, Dict, lookup, insert}
use fbs_interlock_gateway.Config.{Defaults, Tool, Config, clone_string, tool_protocol}

pub record ToolRequest : Type 0 where
  pub interlock_name : Text
  pub ip : Text
  pub protocol : Text
  pub port : ℤ
  pub switch_id : ℤ
  pub username : Option Text
  pub password : Option Text
  pub password_set : Bool
  pub clear_password : Bool
  pub enabled : Bool

pub record ConfigRequest : Type 0 where
  pub bind : Text
  pub defaults : Defaults
  pub tools : List ToolRequest

pub record ToolResponse : Type 0 where
  pub interlock_name : Text
  pub ip : Text
  pub protocol : Text
  pub port : ℤ
  pub switch_id : ℤ
  pub username : Option Text
  pub password_set : Bool
  pub enabled : Bool

-- The defaults have the same three fields as the configuration's.
pub record ConfigResponse : Type 0 where
  pub bind : Text
  pub defaults : Defaults
  pub tools : List ToolResponse

unfoldable pub normalize_tool_name : Text → Text
normalize_tool_name value = to_lower (trim_space value)

unfoldable pub unless_empty : Text → Option Text
unless_empty trimmed = if is_empty trimmed then none else some trimmed

unfoldable pub normalize_optional_string : Option Text → Option Text
unfolding unless_empty
normalize_optional_string none = none
normalize_optional_string (some value) = unless_empty (trim_space value)

unfoldable pub clone_trimmed_string_pointer : Option Text → Option Text
unfolding unless_empty
clone_trimmed_string_pointer none = none
clone_trimmed_string_pointer (some value) = unless_empty (trim_space value)

unfoldable pub has_non_empty_string : Option Text → Bool
has_non_empty_string none = false
has_non_empty_string (some value) = not (is_empty (trim_space value))

unfoldable pub tool_response : Tool → ToolResponse
unfolding has_non_empty_string
tool_response t = record {
  interlock_name = t.interlock_name;
  ip = t.ip;
  protocol = tool_protocol t;
  port = t.port;
  switch_id = t.switch_id;
  username = clone_string t.username;
  password_set = has_non_empty_string t.password;
  enabled = t.enabled;
}

-- The body that `handleGetConfig` sends.
unfoldable pub get_config : Config → ConfigResponse
get_config cfg = record {
  bind = cfg.bind;
  defaults = cfg.defaults;
  tools = map tool_response cfg.tools;
}

-- `passwordsByPort` and `passwordsByName`
pub record Passwords : Type 0 where
  pub by_port : Dict ℤ (Option Text)
  pub by_name : Dict Text (Option Text)

unfoldable pub note_name : Text → Option Text → Dict Text (Option Text) → Dict Text (Option Text)
note_name key password d = if is_empty key then d else insert key password d

unfoldable pub note_password : Tool → Passwords → Passwords
unfolding note_name
note_password t p = record {
  by_port = insert t.port (clone_string t.password) p.by_port;
  by_name = note_name (normalize_tool_name t.interlock_name) (clone_string t.password) p.by_name;
}

unfoldable pub note_passwords : List Tool → Passwords → Passwords
unfolding note_password
note_passwords [] p = p
note_passwords (t ∷ ts) p = note_passwords ts (note_password t p)

unfoldable pub stored_passwords : List Tool → Passwords
unfolding note_passwords
stored_passwords ts = note_passwords ts (record { by_port = []; by_name = [] })

unfoldable pub by_port_password : Option (Option Text) → Option Text
by_port_password (some password) = clone_string password
by_port_password none = none

unfoldable pub by_name_password : Option (Option Text) → Option (Option Text) → Option Text
unfolding by_port_password
by_name_password (some password) at_port = clone_string password
by_name_password none at_port = by_port_password at_port

unfoldable pub name_lookup : Text → Dict Text (Option Text) → Option (Option Text)
name_lookup key d = if is_empty key then none else lookup key d

unfoldable pub requested_password : ToolRequest → Passwords → Option Text
unfolding by_name_password name_lookup
requested_password incoming p =
    if incoming.clear_password
    then none
    else if has_non_empty_string incoming.password
    then clone_trimmed_string_pointer incoming.password
    else by_name_password (name_lookup (normalize_tool_name incoming.interlock_name) p.by_name)
        (lookup incoming.port p.by_port)

-- `config.ToolProtocol(config.Tool{Protocol: protocol})`
unfoldable pub protocol_of : Text → Text
protocol_of protocol = tool_protocol (record {
  interlock_name = [];
  ip = [];
  protocol = protocol;
  port = pos 0;
  switch_id = pos 0;
  username = none;
  password = none;
  enabled = false;
})

unfoldable pub updated_tool : Passwords → ToolRequest → Tool
unfolding protocol_of
updated_tool p incoming = record {
  interlock_name = trim_space incoming.interlock_name;
  ip = trim_space incoming.ip;
  protocol = protocol_of incoming.protocol;
  port = incoming.port;
  switch_id = incoming.switch_id;
  username = normalize_optional_string incoming.username;
  password = requested_password incoming p;
  enabled = incoming.enabled;
}

unfoldable pub build_updated_config : Config → ConfigRequest → Config
build_updated_config current request = record {
  bind = trim_space request.bind;
  defaults = request.defaults;
  tools = map (updated_tool (stored_passwords current.tools)) request.tools;
}
