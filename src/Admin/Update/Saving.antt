-- ===== src/Admin/Update/Saving.antt =====
-- Showing and saving a configuration, in internal/admin/server.go.
use fbs_interlock_gateway.Prelude.{
  ◌<◌, Bool-cases, All, AllDistinct, ◌≡◌, refl, ap, ◌∙◌, ◌≢◌, inl, inr, false, Option, none, some,
  List, [], ◌∷◌, map,
}
use fbs_interlock_gateway.Text.{Text, is_empty, trim_space}
use fbs_interlock_gateway.Text.Laws.{text_eq_refl, ne→text_eq}
use fbs_interlock_gateway.Dict.{int_key, text_key, Dict, lookup, lookup-insert}
use fbs_interlock_gateway.Config.{Tool, Config, clone_string, tool_protocol}
use fbs_interlock_gateway.Admin.Update.{
  ToolRequest, ConfigRequest, ToolResponse, ConfigResponse, normalize_tool_name,
  normalize_optional_string, has_non_empty_string, tool_response, get_config, Passwords, note_name,
  note_password, note_passwords, stored_passwords, by_name_password, name_lookup,
  requested_password, protocol_of, updated_tool, build_updated_config,
}

-- What a client sends back that changes nothing: no password, and none is cleared.
abbrev pub resend_tool : ToolResponse → ToolRequest
resend_tool r = record {
  interlock_name = r.interlock_name;
  ip = r.ip;
  protocol = r.protocol;
  port = r.port;
  switch_id = r.switch_id;
  username = r.username;
  password = none;
  password_set = r.password_set;
  clear_password = false;
  enabled = r.enabled;
}

abbrev pub resend : ConfigResponse → ConfigRequest
resend r = record { bind = r.bind; defaults = r.defaults; tools = map resend_tool r.tools }

abbrev pub name_of : Tool → Text
name_of t = normalize_tool_name t.interlock_name

abbrev pub names_of : List Tool → List Text
names_of [] = []
names_of (t ∷ ts) = name_of t ∷ names_of ts

-- Letters are folded on ASCII only in the model.
abbrev pub IsAscii : Text → Type 0
IsAscii = All (λ c. c < 128)

-- A tool as saving leaves it: named, without blanks around its texts, its protocol spelled out.
pub record IsTidy (t : Tool) : Type 0 where
  pub name_ascii : IsAscii t.interlock_name
  pub protocol_ascii : IsAscii t.protocol
  pub named : is_empty (name_of t) ≡ false
  pub name_trimmed : trim_space t.interlock_name ≡ t.interlock_name
  pub ip_trimmed : trim_space t.ip ≡ t.ip
  pub protocol_plain : tool_protocol t ≡ t.protocol
  pub username_plain : normalize_optional_string t.username ≡ t.username

clone_string_lem : (o : Option Text) → clone_string o ≡ o
unfolding clone_string
clone_string_lem none = refl
clone_string_lem (some s) = refl

lookup-note_name_other :
    (key k : Text) (password : Option Text) (d : Dict Text (Option Text))
    → k ≢ key
    → lookup key (note_name k password d) ≡ lookup key d
unfolding note_name
lookup-note_name_other key k password d ne = elim (Bool-cases (is_empty k)) [
  | inl e ↦ rw e refl
  | inr e ↦ rw (e, lookup-insert k key password d, ne→text_eq k key ne) refl
]

lookup-note_name_self :
    (key : Text) (password : Option Text) (d : Dict Text (Option Text))
    → is_empty key ≡ false
    → lookup key (note_name key password d) ≡ some password
unfolding note_name
lookup-note_name_self key password d e =
    rw (e, lookup-insert key key password d, text_eq_refl key) refl

lookup-note_passwords_other :
    (key : Text) (ts : List Tool) (p : Passwords)
    → All (λ n. n ≢ key) (names_of ts)
    → lookup key (note_passwords ts p).by_name ≡ lookup key p.by_name
unfolding note_passwords note_password
lookup-note_passwords_other key [] p h = refl
lookup-note_passwords_other key (t ∷ ts) p h =
    lookup-note_passwords_other key ts (note_password t p) h.1
    ∙ lookup-note_name_other key (name_of t) (clone_string t.password) p.by_name h.0

-- Under distinct names, every tool's password is found under its name.
lookup-note_passwords :
    (ts : List Tool) (p : Passwords)
    → AllDistinct (names_of ts)
    → All IsTidy ts
    → All (λ t. lookup (name_of t) (note_passwords ts p).by_name ≡ some t.password) ts
unfolding note_passwords note_password
lookup-note_passwords [] p d h = tt
lookup-note_passwords (t ∷ ts) p d h = (
  lookup-note_passwords_other (name_of t) ts (note_password t p) d.0
      ∙ (lookup-note_name_self (name_of t) (clone_string t.password) p.by_name h.0.named
          ∙ ap some (clone_string_lem t.password)),
  lookup-note_passwords ts (note_password t p) d.1 h.1,
)

requested_password-stored :
    (r : ToolRequest) (p : Passwords) (password : Option Text)
    → r.clear_password ≡ false
    → has_non_empty_string r.password ≡ false
    → is_empty (normalize_tool_name r.interlock_name) ≡ false
    → lookup (normalize_tool_name r.interlock_name) p.by_name ≡ some password
    → requested_password r p ≡ password
unfolding requested_password name_lookup by_name_password
requested_password-stored r p password c n k l = simp (c, n, k, l, clone_string_lem password)

protocol_of-tool_protocol :
    (t : Tool) → tool_protocol t ≡ t.protocol → protocol_of (tool_protocol t) ≡ t.protocol
unfolding protocol_of tool_protocol
protocol_of-tool_protocol t e = ap protocol_of e ∙ e

updated_tool-resend_tool :
    (p : Passwords) (t : Tool)
    → IsTidy t
    → lookup (name_of t) p.by_name ≡ some t.password
    → updated_tool p (resend_tool (tool_response t)) ≡ t
unfolding updated_tool tool_response has_non_empty_string
updated_tool-resend_tool p t i l = cc (
  i.name_trimmed,
  i.ip_trimmed,
  protocol_of-tool_protocol t i.protocol_plain,
  i.username_plain,
  clone_string_lem t.username,
  requested_password-stored (resend_tool (tool_response t)) p t.password refl refl i.named l,
)

tools-resend :
    (p : Passwords) (ts : List Tool)
    → All IsTidy ts
    → All (λ t. lookup (name_of t) p.by_name ≡ some t.password) ts
    → map (updated_tool p) (map resend_tool (map tool_response ts)) ≡ ts
tools-resend p [] h l = refl
tools-resend p (t ∷ ts) h l = cc (updated_tool-resend_tool p t h.0 l.0, tools-resend p ts h.1 l.1)

-- A client that sends back the configuration it was shown, without a password, saves it unchanged,
-- stored passwords included. The configuration is one as saving leaves it, with names and protocols in
-- ASCII, and with names that differ even in lower case and without the blanks around them.
pub build_updated_config-resend :
    (cfg : Config)
    → trim_space cfg.bind ≡ cfg.bind
    → All IsTidy cfg.tools
    → AllDistinct (names_of cfg.tools)
    → build_updated_config cfg (resend (get_config cfg)) ≡ cfg
unfolding build_updated_config get_config stored_passwords
build_updated_config-resend cfg b h d = cc (
  b,
  tools-resend (stored_passwords cfg.tools) cfg.tools h
      (lookup-note_passwords cfg.tools (record { by_port = []; by_name = [] }) d h),
)

abbrev map_password : (Text → Text) → Option Text → Option Text
map_password f none = none
map_password f (some s) = some (f s)

abbrev pub swap_password : (Text → Text) → Tool → Tool
swap_password f t = record t { password = map_password f t.password }
