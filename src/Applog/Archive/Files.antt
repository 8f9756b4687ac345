-- ===== src/Applog/Archive/Files.antt =====
-- `listLogFiles` and `isManagedLogName` of internal/applog/store.go.
pub mod Sizes
pub mod Growing
pub mod Ordering
use mathlib.Core.List.{reverse}
use fbs_interlock_gateway.Prelude.{
  ltb, ◌==◌, if◌then◌else◌, length, ℕ, ◌+◌, Bool, true, false, not, ◌&&◌, ◌||◌, List, [], ◌∷◌,
}
use fbs_interlock_gateway.Text.{Text, codes, has_prefix}
use fbs_interlock_gateway.Dict.{int_key, text_key, Dict}

pub record Entry : Type 0 where
  pub is_folder : Bool
  pub content : Text
  pub mod_time : ℕ

-- No name stands twice.
abbrev pub Directory : Type 0
Directory = Dict Text Entry

-- `logFileInfo`; the path is the name in the store's directory.
pub record LogFile : Type 0 where
  pub name : Text
  pub size : ℕ
  pub mod_time : ℕ

unfoldable pub has_suffix : Text → Text → Bool
unfolding has_prefix
has_suffix s p = has_prefix (reverse s) (reverse p)

unfoldable pub is_managed_log_name : Text → Bool
unfolding has_suffix
is_managed_log_name name = has_prefix name (codes "log-") && has_suffix name (codes ".log")

unfoldable pub is_log_file : Text → Entry → Bool
is_log_file name e = not (e.is_folder || not (is_managed_log_name name))

unfoldable pub log_files : Directory → List LogFile
log_files [] = []
log_files ((name, e) ∷ d) =
    if is_log_file name e
    then (record { name = name; size = length e.content; mod_time = e.mod_time }) ∷ log_files d
    else log_files d

-- Go's `<` on strings
unfoldable pub text_lt : Text → Text → Bool
text_lt [] [] = false
text_lt [] (d ∷ t) = true
text_lt (c ∷ s) [] = false
text_lt (c ∷ s) (d ∷ t) = if c == d then text_lt s t else ltb c d

unfoldable pub comes_before : LogFile → LogFile → Bool
unfolding text_lt
comes_before f g =
    if f.mod_time == g.mod_time then text_lt f.name g.name else ltb f.mod_time g.mod_time

pub place_file : LogFile → List LogFile → List LogFile
unfolding comes_before
place_file f [] = f ∷ []
place_file f (g ∷ gs) = if comes_before g f then g ∷ place_file f gs else f ∷ g ∷ gs

-- sort.Slice: oldest first, and by name where the times are equal
unfoldable pub sorted_files : List LogFile → List LogFile
unfolding place_file
sorted_files [] = []
sorted_files (f ∷ fs) = place_file f (sorted_files fs)

-- A listing fails where the directory or one of the files cannot be read.
unfoldable pub list_log_files : Directory → List LogFile
unfolding sorted_files log_files
list_log_files d = sorted_files (log_files d)

unfoldable pub total_size : List LogFile → ℕ
total_size [] = 0
total_size (f ∷ fs) = f.size + total_size fs
