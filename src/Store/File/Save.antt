-- ===== src/Store/File/Save.antt =====
-- What saveLocked leaves on the disk, whichever of its calls fails, and at every moment in between.
use if_sos_beacon.Base.{
  Text, ◌=ᵗ◌, =ᵗ_iff, ◌≡◌, ◌≢◌, refl, ◌⊎◌, inl, inr, Option, none, some, [], arith, take, All,
  All-append, Option-cases, =ᵗ_refl, if◌then◌else◌,
}
use if_sos_beacon.Base.Errors.{Error, ok, Result-cases}
use if_sos_beacon.Store.Disk.{Bytes, Files, update, Faults, Disk, write_file, remove}
use if_sos_beacon.Store.File.{
  Codec, World, save_bytes, create_temp, write_temp, close_temp, rename_temp, save_locked,
  next_faults,
}

-- The target holds what it held before, or the whole new content.
abbrev pub OldOrNew : Text → Option Bytes → Bytes → Files → Type 0
OldOrNew path old new files = (files path ≡ old) ⊎ (files path ≡ some new)

module _ (f : Faults) (path : Text) (b : Bytes) (d : Disk) (q : Text) where
  create_temp_done :
      (create_temp f path b d).0 ≡ none
      → (create_temp f path b d).1.files q
        ≡ (if path =ᵗ q then some b else if f.tmp_name =ᵗ q then none else d.files q)
  unfolding create_temp
  create_temp_done h = ground (arith, =ᵗ_iff path q, =ᵗ_iff f.tmp_name q)

  create_temp_failed :
      (e : Error)
      → (create_temp f path b d).0 ≡ some e
      → (q ≢ f.tmp_name) ⊎ (f.remove_error ≡ none) × (d.files f.tmp_name ≡ none)
      → (create_temp f path b d).1.files q ≡ d.files q
  unfolding create_temp
  create_temp_failed e h c = ground (arith, =ᵗ_iff f.tmp_name q)

-- Every moment is safe so far, and the target is still untouched.
record Intact (path : Text) (old : Option Bytes) (b : Bytes) (d : Disk) : Type 0 where
  moments : All (OldOrNew path old b) d.moments
  target : d.files path ≡ old

module _ (f : Faults) (path : Text) (old : Option Bytes) (b : Bytes)
    (fresh : f.tmp_name ≢ path) where
  write_file-Intact :
      (content : Option Bytes) (d : Disk)
      → Intact path old b d
      → Intact path old b (write_file f.tmp_name content d)
  unfolding write_file
  write_file-Intact content d h =
      let same : update d.files f.tmp_name content path ≡ old =
        ground (arith, =ᵗ_iff f.tmp_name path, h.target) in
      record { moments = All-append _ d.moments _ h.moments (inl same, tt); target = same }

  remove-Intact : (d : Disk) → Intact path old b d → Intact path old b (remove f d)
  unfolding remove
  remove-Intact d h = elim (Option-cases f.remove_error) [
    | inl e ↦ rw e (write_file-Intact none d h)
    | inr (_, e) ↦ rw e h
  ]

  rename_temp-moments :
      (d : Disk)
      → Intact path old b d
      → All (OldOrNew path old b) (rename_temp f path b d).1.moments
  unfolding rename_temp
  rename_temp-moments d h = elim (Option-cases f.rename_error) [
    | inl e ↦ rw e (All-append _ d.moments _ h.moments (inr (rw =ᵗ_refl), tt))
    | inr (_, e) ↦ rw e (remove-Intact d h).moments
  ]

  close_temp-moments :
      (d : Disk) → Intact path old b d → All (OldOrNew path old b) (close_temp f path b d).1.moments
  unfolding close_temp
  close_temp-moments d h = elim (Option-cases f.close_error) [
    | inl e ↦ rw e (rename_temp-moments d h)
    | inr (_, e) ↦ rw e (remove-Intact d h).moments
  ]

  write_temp-moments :
      (d : Disk) → Intact path old b d → All (OldOrNew path old b) (write_temp f path b d).1.moments
  unfolding write_temp
  write_temp-moments d h = elim (Option-cases f.write_error) [
    | inl e ↦ rw e (close_temp-moments _ (write_file-Intact (some b) d h))
    | inr (_, e) ↦ rw e (remove-Intact _ (write_file-Intact (some (take f.written b)) d h)).moments
  ]

  create_temp-moments :
      (d : Disk)
      → Intact path old b d
      → All (OldOrNew path old b) (create_temp f path b d).1.moments
  unfolding create_temp
  create_temp-moments d h = elim (Option-cases f.create_error) [
    | inl e ↦ rw e (write_temp-moments _ (write_file-Intact (some []) d h))
    | inr (_, e) ↦ rw e h.moments
  ]

-- A save that reports no error has put the whole encoded state into the target, the temporary file
-- is gone, and every other file is as it was.
pub save_locked_done :
    (c : Codec) (w : World)
    → (save_locked c w).0 ≡ none
    → (b : Bytes) × (c.marshal w.file.state ≡ ok b)
      × ((q : Text)
          → (save_locked c w).1.disk.files q ≡ (
              if w.file.path =ᵗ q
              then some b
              else if (next_faults w.faults).tmp_name =ᵗ q
              then none
              else w.disk.files q))
unfolding save_locked save_bytes
save_locked_done c w h = elim (Result-cases (c.marshal w.file.state)) [
  | inl (b, e) ↦
      (b, e, λ q. rw e (create_temp_done (next_faults w.faults) w.file.path b w.disk q (rw e at h)))
  | inr (x, e) ↦ absurd (ground arith)
]

-- A save that reports an error, whichever of its calls failed, has changed no file but the temporary
-- one, so it has not touched the target; and it has left no temporary file either, if os.Remove works
-- and the temporary name was free.
pub save_locked_failed :
    (c : Codec) (w : World) (e : Error) (q : Text)
    → (save_locked c w).0 ≡ some e
    → (q ≢ (next_faults w.faults).tmp_name)
      ⊎ ((next_faults w.faults).remove_error ≡ none)
        × (w.disk.files (next_faults w.faults).tmp_name ≡ none)
    → (save_locked c w).1.disk.files q ≡ w.disk.files q
unfolding save_locked save_bytes
save_locked_failed c w e q h clean = elim (Result-cases (c.marshal w.file.state)) [
  | inl (b, m) ↦
      rw m (create_temp_failed (next_faults w.faults) w.file.path b w.disk q e (rw m at h) clean)
  | inr (x, m) ↦ rw m
]

-- If the process stops at any moment of a save, the target holds its old content or the whole
-- encoding of the state, and never a part of it. The moments before the save are taken to be so.
pub save_locked-moments :
    (c : Codec) (w : World) (b : Bytes)
    → (next_faults w.faults).tmp_name ≢ w.file.path
    → c.marshal w.file.state ≡ ok b
    → All (OldOrNew w.file.path (w.disk.files w.file.path) b) w.disk.moments
    → All (OldOrNew w.file.path (w.disk.files w.file.path) b) (save_locked c w).1.disk.moments
unfolding save_locked save_bytes
save_locked-moments c w b fresh e before = rw e (
    create_temp-moments (next_faults w.faults) w.file.path _ b fresh w.disk
      (record { moments = before; target = refl }))
