-- ===== src/Config/Files.antt =====
-- internal/config/config.go: the configuration as a YAML file. The codec and what path/filepath does
-- are arguments.
pub mod Saving
use fbs_interlock_gateway.Prelude.{
  if◌then◌else◌, Result, ok, err, ◌>>=◌, ◌>>◌, fail_if, required, Bool, true, false, not, ◌||◌,
  Option, none, some, List, [], ◌∷◌, ◌++◌,
}
use fbs_interlock_gateway.Text.{Text, codes, is_empty, trim_space}
use fbs_interlock_gateway.Dict.{int_key, text_key, lookup}
use fbs_interlock_gateway.Files.{
  FileSystem, FileStep, fills, renames, marshal_failed, write_failed, rename_failed, Written,
}
use fbs_interlock_gateway.Config.{Config}

pub record Yaml : Type 0 where
  pub marshal : Config → Option Text  -- none for an error
  pub unmarshal : Text → Option Config

pub record Paths : Type 0 where
  pub absolute : Text → Option Text
  pub folder : Text → Text
  pub is_absolute : Text → Bool
  pub join_clean : Text → Text → Text  -- filepath.Clean(filepath.Join(a, b))

pub data LoadError : Type 0 where
  unresolved unreadable unparsable : LoadError

unfoldable pub resolve_relative_path : Paths → Text → Text → Text
resolve_relative_path paths base path =
    let trimmed = trim_space path in
    if is_empty trimmed || paths.is_absolute trimmed then trimmed else paths.join_clean base trimmed

unfoldable pub resolve_tls : Paths → Text → Config → Config
unfolding resolve_relative_path
resolve_tls paths base cfg = record cfg {
  defaults = record defaults {
    shelly_tls = record {
      server_ca_file = resolve_relative_path paths base defaults.shelly_tls.server_ca_file;
      client_cert_file = resolve_relative_path paths base defaults.shelly_tls.client_cert_file;
      client_key_file = resolve_relative_path paths base defaults.shelly_tls.client_key_file;
    };
  };
}
  where
    open cfg use {defaults}

-- `Load`; `broken` says that a file that is there cannot be read.
module _ (yaml : Yaml) (paths : Paths) where
  unfoldable pub load_file : Bool → Text → FileSystem → Result LoadError Config
  load_file broken path fs = do
    absolute ← required unresolved (paths.absolute path)
    fail_if broken unreadable
    content ← required unreadable (lookup absolute fs)
    cfg ← required unparsable (yaml.unmarshal content)
    ok (resolve_tls paths (paths.folder absolute) cfg)

abbrev pub backup_of : Text → Text
backup_of path = path ++ codes ".bak"

abbrev pub temp_of : Text → Text
temp_of path = path ++ codes ".tmp"

-- Which of the calls of `WriteAtomic` fail; of a failed write, what it left.
pub record WriteFaults : Type 0 where
  pub read : Bool
  pub backup : Option Text
  pub temp : Option Text
  pub rename : Bool

abbrev pub no_write_faults : WriteFaults
no_write_faults = record { read = false; backup = none; temp = none; rename = false }

-- A copy of the old content; a write that fails is not noticed.
backup_steps : Bool → Option Text → Text → Option Text → List FileStep
backup_steps true partial path old = []
backup_steps false partial path none = []
backup_steps false (some part) path (some old) = fills (backup_of path) part ∷ []
backup_steps false none path (some old) = fills (backup_of path) old ∷ []

-- The temporary file is written and renamed.
switch_file : Option Text → Bool → Text → Text → Written
switch_file (some part) no_rename path content = (err write_failed, fills (temp_of path) part ∷ [])
switch_file none true path content = (err rename_failed, fills (temp_of path) content ∷ [])
switch_file none false path content =
    (ok tt, fills (temp_of path) content ∷ renames (temp_of path) path ∷ [])

after_steps : List FileStep → Written → Written
after_steps first (result, steps) = (result, first ++ steps)

write_marshalled : WriteFaults → Text → Option Text → FileSystem → Written
unfolding backup_steps switch_file after_steps
write_marshalled f path none fs = (err marshal_failed, [])
write_marshalled f path (some content) fs =
    after_steps (backup_steps f.read f.backup path (lookup path fs))
      (switch_file f.temp f.rename path content)

unfoldable pub write_atomic : Yaml → WriteFaults → Text → Config → FileSystem → Written
unfolding write_marshalled
write_atomic yaml f path cfg fs = write_marshalled f path (yaml.marshal cfg) fs
