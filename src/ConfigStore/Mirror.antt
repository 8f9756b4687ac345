-- ===== src/ConfigStore/Mirror.antt =====
-- `writeGeneratedMirror` of internal/configstore/store.go: the YAML file beside the database. The
-- path is the absolute one.
pub mod Backup
use fbs_interlock_gateway.Prelude.{
  if◌then◌else◌, err, Bool, false, Option, none, some, [], ◌∷◌, ◌++◌,
}
use fbs_interlock_gateway.Text.{Text, codes}
use fbs_interlock_gateway.Dict.{int_key, text_key, lookup}
use fbs_interlock_gateway.Files.{
  FileSystem, fills, path_failed, folder_failed, marshal_failed, backup_failed, read_failed,
  Written, TempFaults, no_temp_faults, through_temp,
}
use fbs_interlock_gateway.Config.{Config}
use fbs_interlock_gateway.Config.Files.{Yaml, backup_of}

abbrev pub mirror_header : Text
mirror_header =
    codes "# GENERATED FILE. SQLite gateway.sqlite3 is authoritative.\n"
    ++ codes "# Manual changes to this file are ignored after database initialization.\n"

-- Which calls fail besides those on the temporary file.
pub record MirrorFaults : Type 0 where
  pub read : Bool
  pub backup : Option Text
  pub temp : TempFaults

abbrev pub no_mirror_faults : MirrorFaults
no_mirror_faults = record { read = false; backup = none; temp = no_temp_faults }

-- The steps of the copy, then those of the rest.
after_backup : Option Text → Text → Option Text → Written → Written
after_backup partial path none rest = rest
after_backup (some part) path (some old) rest =
    (err backup_failed, fills (backup_of path) part ∷ [])
after_backup none path (some old) (result, steps) = (result, fills (backup_of path) old ∷ steps)

mirror_body : MirrorFaults → Text → Text → Option Text → FileSystem → Written
unfolding after_backup
mirror_body f temp path none fs = (err marshal_failed, [])
mirror_body f temp path (some body) fs =
    if f.read
    then (err read_failed, [])
    else after_backup f.backup path (lookup path fs)
        (through_temp f.temp temp path (mirror_header ++ body))

unfoldable pub write_generated_mirror :
    Yaml → MirrorFaults → Text → Text → Config → FileSystem → Written
unfolding mirror_body
write_generated_mirror yaml f temp path cfg fs =
    if f.temp.absolute
    then (err path_failed, [])
    else if f.temp.folder
    then (err folder_failed, [])
    else mirror_body f temp path (yaml.marshal cfg) fs
