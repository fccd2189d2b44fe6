-- ===== src/Store/Disk.antt =====
-- The file system under internal/store/file.go, as far as the store uses package os: whole files,
-- temporary files, removal and rename. Which calls fail is the environment's choice: one `Faults` for
-- each save. `moments` keeps every content of the disk that a crash could leave behind.
use if_sos_beacon.Base.{Text, ℕ, Option, none, some, List, [], ◌∷◌, ◌++◌, ◌=ᵗ◌, if◌then◌else◌}
use if_sos_beacon.Base.Errors.{Error}

abbrev pub Bytes : Type 0
Bytes = List ℕ

abbrev pub Files : Type 0
Files = Text → Option Bytes

abbrev pub update : Files → Text → Option Bytes → Files
update d path content q = if path =ᵗ q then content else d q

-- What happens to the calls of one save. `tmp_name` is the name that os.CreateTemp picks, and
-- `written` how much a failing Write leaves in the file.
pub record Faults : Type 0 where
  pub tmp_name : Text
  pub create_error : Option Error
  pub write_error : Option Error
  pub written : ℕ
  pub close_error : Option Error
  pub rename_error : Option Error
  pub remove_error : Option Error

pub record Disk : Type 0 where
  pub files : Files
  pub moments : List Files

-- One effect on the disk.
unfoldable pub write_file : Text → Option Bytes → Disk → Disk
write_file path content d =
    let files' = update d.files path content in
    record d { files = files'; moments = d.moments ++ files' ∷ [] }

-- os.Remove, its result dropped
unfoldable pub remove : Faults → Disk → Disk
unfolding write_file
remove f d = elim f.remove_error [ none ↦ write_file f.tmp_name none d | some e ↦ d ]

-- os.Rename over the target, which POSIX makes one step
unfoldable pub rename : Text → Bytes → Text → Disk → Disk
rename from content path d =
    let files' = update (update d.files from none) path (some content) in
    record d { files = files'; moments = d.moments ++ files' ∷ [] }
