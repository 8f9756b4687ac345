-- ===== src/ConfigStore/Mirror/Backup.antt =====
-- The mirror and its backup, in internal/configstore/store.go.
use fbs_interlock_gateway.Prelude.{
  Bool-cases, ◌≡◌, refl, ◌≢◌, inl, inr, Option, none, some, [], ◌∷◌, ◌++◌, arith,
}
use fbs_interlock_gateway.Text.{Text, codes}
use fbs_interlock_gateway.Dict.{int_key, text_key, lookup}
use fbs_interlock_gateway.Files.{
  FileSystem, fills, path_failed, folder_failed, backup_failed, read_failed, file_steps, Written,
}
use fbs_interlock_gateway.Files.Atomic.{
  Spares, Course, gave_up, IsAtomic, IsAtomic-of_Course, Course-after, through_temp-Course,
}
use fbs_interlock_gateway.Config.{Config}
use fbs_interlock_gateway.Config.Files.{Yaml, backup_of}
use fbs_interlock_gateway.Config.Files.Saving.{longer}
use fbs_interlock_gateway.ConfigStore.Mirror.{
  mirror_header, MirrorFaults, after_backup, mirror_body, write_generated_mirror,
}

module _ (path : Text) where
  Spares-backup : (content : Text) → Spares path (fills (backup_of path) content)
  Spares-backup content = longer path (codes ".bak") (omega arith)

  after_backup-Course :
      (partial : Option Text) (old : Option Text) (content : Text) (fs : FileSystem)
      (rest : Written)
      → ((fs' : FileSystem) → Course path content fs' rest)
      → Course path content fs (after_backup partial path old rest)
  unfolding after_backup
  after_backup-Course partial none content fs rest h = h fs
  after_backup-Course (some part) (some old) content fs rest h =
      gave_up backup_failed refl (Spares-backup part, tt)
  after_backup-Course none (some old) content fs rest h =
      Course-after (fills (backup_of path) old ∷ []) (Spares-backup old, tt)
        (h (file_steps (fills (backup_of path) old ∷ []) fs))

  mirror_body-Course :
      (f : MirrorFaults) (temp body : Text) (fs : FileSystem)
      → temp ≢ path
      → Course path (mirror_header ++ body) fs (mirror_body f temp path (some body) fs)
  unfolding mirror_body
  mirror_body-Course f temp body fs other = elim (Bool-cases f.read) [
    | inl e ↦ simp e (gave_up read_failed refl tt)
    | inr e ↦ simp e (
        after_backup-Course f.backup (lookup path fs) (mirror_header ++ body) fs _
          (through_temp-Course temp path (mirror_header ++ body) other f.temp))
  ]

  -- Whichever calls fail, and whenever the program stops: the mirror of a configuration that can be
  -- written as YAML has its old content or the generated one at every moment, in the end the
  -- generated one after a success and the old one after an error. The temporary file is another one.
  pub write_generated_mirror-IsAtomic :
      (yaml : Yaml) (f : MirrorFaults) (temp : Text) (cfg : Config) (body : Text) (fs : FileSystem)
      → temp ≢ path
      → yaml.marshal cfg ≡ some body
      → IsAtomic path (mirror_header ++ body) fs (write_generated_mirror yaml f temp path cfg fs)
  unfolding write_generated_mirror
  write_generated_mirror-IsAtomic yaml f temp cfg body fs other m =
      elim (Bool-cases f.temp.absolute) [
        | inl e ↦ simp e (IsAtomic-of_Course (gave_up path_failed refl tt))
        | inr e ↦ elim (Bool-cases f.temp.folder) [
          | inl g ↦ simp (e, g) (IsAtomic-of_Course (gave_up folder_failed refl tt))
          | inr g ↦ simp (e, g, m) (IsAtomic-of_Course (mirror_body-Course f temp body fs other))
        ]
      ]
