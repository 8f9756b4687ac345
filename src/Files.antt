-- ===== src/Files.antt =====
-- The files that the program writes, as a map from paths to contents, and the steps that it takes on
-- them. A step that fails halfway is a step that leaves a part of the content. Directories and
-- permissions are left out.
pub mod Atomic
use fbs_interlock_gateway.Prelude.{
  if◌then◌else◌, Result, ok, err, Bool, false, Option, none, some, List, [], ◌∷◌, ◌++◌, map,
}
use fbs_interlock_gateway.Text.{Text}
use fbs_interlock_gateway.Dict.{int_key, text_key, Dict, lookup, insert, erase}

abbrev pub FileSystem : Type 0
FileSystem = Dict Text Text

pub data FileStep : Type 0 where
  fills : Text → Text → FileStep
  renames : Text → Text → FileStep
  removes : Text → FileStep

pub data FileError : Type 0 where
  path_failed folder_failed marshal_failed backup_failed read_failed : FileError
  temp_failed chmod_failed write_failed sync_failed close_failed rename_failed : FileError

put_content : Option Text → Text → Text → FileSystem → FileSystem
put_content none from to fs = fs
put_content (some content) from to fs = insert to content (erase from fs)

unfoldable pub file_step : FileStep → FileSystem → FileSystem
unfolding put_content
file_step (fills path content) fs = insert path content fs
file_step (renames from to) fs = put_content (lookup from fs) from to fs
file_step (removes path) fs = erase path fs

unfoldable pub file_steps : List FileStep → FileSystem → FileSystem
unfolding file_step
file_steps [] fs = fs
file_steps (o ∷ os) fs = file_steps os (file_step o fs)

-- What a call returned, and the steps it took.
abbrev pub Written : Type 0
Written = Result FileError (Unit {0}) × List FileStep

-- Which calls fail while a temporary file is written; of a failed write, what it left.
pub record TempFaults : Type 0 where
  pub absolute : Bool
  pub folder : Bool
  pub create : Bool
  pub chmod : Bool
  pub write : Option Text
  pub sync : Bool
  pub close : Bool
  pub rename : Bool

abbrev pub no_temp_faults : TempFaults
no_temp_faults = record {
  absolute = false;
  folder = false;
  create = false;
  chmod = false;
  write = none;
  sync = false;
  close = false;
  rename = false;
}

-- After the content was written: sync, close and rename.
finish_temp : TempFaults → Text → Text → Text → Written
finish_temp f temp path content =
    if f.sync
    then (err sync_failed, fills temp content ∷ [])
    else if f.close
    then (err close_failed, fills temp content ∷ [])
    else if f.rename
    then (err rename_failed, fills temp content ∷ [])
    else (ok tt, fills temp content ∷ renames temp path ∷ [])

fill_temp : Option Text → TempFaults → Text → Text → Text → Written
unfolding finish_temp
fill_temp (some part) f temp path content = (err write_failed, fills temp part ∷ [])
fill_temp none f temp path content = finish_temp f temp path content

-- The deferred removal, which runs on every return.
with_removal : Text → Written → Written
with_removal temp (result, steps) = (result, fills temp [] ∷ (steps ++ removes temp ∷ []))

-- A new file beside the target is filled, and renamed to the target.
unfoldable pub through_temp : TempFaults → Text → Text → Text → Written
unfolding fill_temp with_removal
through_temp f temp path content =
    if f.create
    then (err temp_failed, [])
    else with_removal temp
        (if f.chmod then (err chmod_failed, []) else fill_temp f.write f temp path content)
