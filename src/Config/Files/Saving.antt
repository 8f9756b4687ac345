-- ===== src/Config/Files/Saving.antt =====
-- `WriteAtomic` and `Load` of internal/config/config.go.
use fbs_interlock_gateway.Prelude.{
  length, length-append, All, ok, not_err, ◌<◌, ◌≡◌, refl, ap, ◌≢◌, inl, inr, Bool, true, false,
  Option, none, some, [], ◌∷◌, ◌++◌, arith,
}
use fbs_interlock_gateway.Text.{Text}
use fbs_interlock_gateway.Dict.{int_key, text_key, lookup}
use fbs_interlock_gateway.Files.{FileSystem, fills, write_failed, rename_failed, file_steps}
use fbs_interlock_gateway.Files.Atomic.{
  Spares, Course, gave_up, replaced, lookup-fills, IsAtomic, IsAtomic-of_Course, Course-after,
}
use fbs_interlock_gateway.Config.{Config}
use fbs_interlock_gateway.Config.Files.{
  Yaml, Paths, resolve_tls, load_file, temp_of, WriteFaults, backup_steps, switch_file, after_steps,
  write_marshalled, write_atomic,
}

pub longer : (path suffix : Text) → 0 < length suffix → path ++ suffix ≢ path
longer path suffix h e = absurd (omega (arith, h, ap length e, length-append path suffix))

backup_steps-Spares :
    (broken : Bool) (partial : Option Text) (path : Text) (old : Option Text)
    → All (Spares path) (backup_steps broken partial path old)
unfolding backup_steps
backup_steps-Spares true partial path old = tt
backup_steps-Spares false partial path none = tt
backup_steps-Spares false (some part) path (some old) = (longer path _ (omega arith), tt)
backup_steps-Spares false none path (some old) = (longer path _ (omega arith), tt)

switch_file-Course :
    (o : Option Text) (no_rename : Bool) (path content : Text) (fs : FileSystem)
    → Course path content fs (switch_file o no_rename path content)
unfolding switch_file
switch_file-Course (some part) no_rename path content fs =
    gave_up write_failed refl (longer path _ (omega arith), tt)
switch_file-Course none true path content fs =
    gave_up rename_failed refl (longer path _ (omega arith), tt)
switch_file-Course none false path content fs =
    replaced (temp_of path) (fills (temp_of path) content ∷ []) [] refl
      (longer path _ (omega arith), tt) tt (lookup-fills (temp_of path) content fs) refl

write_marshalled-Course :
    (f : WriteFaults) (path content : Text) (fs : FileSystem)
    → Course path content fs (write_marshalled f path (some content) fs)
unfolding write_marshalled after_steps
write_marshalled-Course f path content fs =
    Course-after (backup_steps f.read f.backup path (lookup path fs))
      (backup_steps-Spares f.read f.backup path (lookup path fs))
      (switch_file-Course f.temp f.rename path content _)

-- Whichever calls fail, and whenever the program stops: the file of a configuration that can be
-- written as YAML has its old content or the new one at every moment, in the end the new one after a
-- success and the old one after an error.
pub write_atomic-IsAtomic :
    (yaml : Yaml) (f : WriteFaults) (path : Text) (cfg : Config) (content : Text) (fs : FileSystem)
    → yaml.marshal cfg ≡ some content
    → IsAtomic path content fs (write_atomic yaml f path cfg fs)
unfolding write_atomic
write_atomic-IsAtomic yaml f path cfg content fs e =
    rw e (IsAtomic-of_Course (write_marshalled-Course f path content fs))

-- What was written is what is loaded, with the relative paths of the TLS files resolved against the
-- file's folder, when the codec reads back what it writes.
pub load_file-write_atomic :
    (yaml : Yaml) (paths : Paths) (f : WriteFaults) (path : Text) (cfg : Config) (content : Text)
    (fs : FileSystem)
    → yaml.marshal cfg ≡ some content
    → yaml.unmarshal content ≡ some cfg
    → paths.absolute path ≡ some path
    → (write_atomic yaml f path cfg fs).0 ≡ ok tt
    → load_file yaml paths false path (file_steps (write_atomic yaml f path cfg fs).1 fs)
      ≡ ok (resolve_tls paths (paths.folder path) cfg)
unfolding load_file
load_file-write_atomic yaml paths f path cfg content fs m u a done =
    elim (write_atomic-IsAtomic yaml f path cfg content fs m).at_end [
      | inl (_, held) ↦ simp (a, held, u)
      | inr (e, failed, _) ↦ absurd (not_err failed done)
    ]
