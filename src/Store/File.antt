-- ===== src/Store/File.antt =====
-- internal/store/file.go: the JSON-file store. Each method runs whole under the mutex, so it is one
-- step here. encoding/json is the parameter `Codec`.
pub mod Save
pub mod Dedupe
pub mod Purge
pub mod Reopen
pub mod Contract
pub mod Receipt
use if_sos_beacon.Base.{
  Text, codes, ℕ, ◌+◌, ◌==◌, ◌=ᵗ◌, Bool, true, false, Option, none, some, List, [], ◌∷◌, ◌++◌, take,
  keep, if◌then◌else◌,
}
use if_sos_beacon.Base.Maps.{Map, lookup, insert}
use if_sos_beacon.Base.Errors.{Error, wrap, Result, ok, err}
use if_sos_beacon.Core.{Finding, Store}
use if_sos_beacon.Store.Key.{key, is_from}
use if_sos_beacon.Store.Disk.{Bytes, Faults, Disk, write_file, remove, rename}

pub record State : Type 0 where
  pub seen : Map Bool
  pub findings : List Finding
  pub claims : Map Text

pub record File : Type 0 where
  pub path : Text
  pub state : State

-- What json.Unmarshal leaves in the state: a map that the file gives as null is nil.
pub record Decoded : Type 0 where
  pub seen : Option (Map Bool)
  pub findings : List Finding
  pub claims : Option (Map Text)

pub record Codec : Type 0 where
  pub marshal : State → Result Bytes
  pub unmarshal : Bytes → Result Decoded

-- The store with what it acts on: the disk, and the environment's choices for the saves to come.
pub record World : Type 0 where
  pub file : File
  pub disk : Disk
  pub faults : List Faults

abbrev pub empty_state : State
empty_state = record { seen = []; findings = []; claims = [] }

-- A nil map is made anew.
made {ℓ} : {V : Type ℓ} → Option (Map V) → Map V
made none = []
made (some m) = m

parse_store : Codec → Text → Bytes → Result File
unfolding made
parse_store c path [] = ok (record { path = path; state = empty_state })
parse_store c path (b ∷ bs) = elim (c.unmarshal (b ∷ bs)) [
  | err e ↦ err (wrap (codes "parse store") e)
  | ok d ↦ ok (record {
    path = path;
    state = record { seen = made d.seen; findings = d.findings; claims = made d.claims };
  })
]

-- `read_error` is an error of os.ReadFile other than a missing file.
unfoldable pub open_file : Codec → Option Error → Disk → Text → Result File
unfolding parse_store
open_file c (some e) d path = err (wrap (codes "read store") e)
open_file c none d path = elim (d.files path) [
  | none ↦ ok (record { path = path; state = empty_state })
  | some b ↦ parse_store c path b
]

-- The tail of saveLocked behind tmp.Close.
rename_temp : Faults → Text → Bytes → Disk → Option Error × Disk
unfolding rename remove
rename_temp f path b d = elim f.rename_error [
  | some e ↦ (some (wrap (codes "rename temp") e), remove f d)
  | none ↦ (none, rename f.tmp_name b path d)
]

close_temp : Faults → Text → Bytes → Disk → Option Error × Disk
unfolding rename_temp remove
close_temp f path b d = elim f.close_error [
  | some e ↦ (some (wrap (codes "close temp") e), remove f d)
  | none ↦ rename_temp f path b d
]

write_temp : Faults → Text → Bytes → Disk → Option Error × Disk
unfolding close_temp remove write_file
write_temp f path b d = elim f.write_error [
  | some e ↦ (
    some (wrap (codes "write temp") e),
    remove f (write_file f.tmp_name (some (take f.written b)) d),
  )
  | none ↦ close_temp f path b (write_file f.tmp_name (some b) d)
]

create_temp : Faults → Text → Bytes → Disk → Option Error × Disk
unfolding write_temp write_file
create_temp f path b d = elim f.create_error [
  | some e ↦ (some (wrap (codes "create temp") e), d)
  | none ↦ write_temp f path b (write_file f.tmp_name (some []) d)
]

-- saveLocked on the disk, for a state that is marshalled to `r`.
unfoldable pub save_bytes : Faults → Text → Result Bytes → Disk → Option Error × Disk
unfolding create_temp
save_bytes f path (err e) d = (some (wrap (codes "marshal store") e), d)
save_bytes f path (ok b) d = create_temp f path b d

-- No fault is left in the list: the calls succeed.
abbrev pub calm : Faults
calm = record {
  tmp_name = codes ".sos-state-0.tmp";
  create_error = none;
  write_error = none;
  written = 0;
  close_error = none;
  rename_error = none;
  remove_error = none;
}

abbrev pub next_faults : List Faults → Faults
next_faults [] = calm
next_faults (f ∷ fs) = f

abbrev pub later_faults : List Faults → List Faults
later_faults [] = []
later_faults (f ∷ fs) = fs

-- The store's state, given anew.
abbrev pub with_state : World → State → World
with_state w s = record w { file = record w.file { state = s } }

-- The loop over the dedupe rows of PurgeSource, from a count: it deletes the rows whose key reads as
-- the source's, and counts them.
purge_seen : Text → ℕ → Map Bool → ℕ × Map Bool
purge_seen source n [] = (n, [])
purge_seen source n ((k, b) ∷ m) =
    let rest = purge_seen source (if is_from source k then n + 1 else n) m in
    if is_from source k then rest else (rest.0, (k, b) ∷ rest.1)

-- The loop over the findings, from a count and what is kept so far.
purge_findings : Text → ℕ → List Finding → List Finding → ℕ × List Finding
purge_findings source n kept [] = (n, kept)
purge_findings source n kept (f ∷ fs) =
    let gone = f.signal.source =ᵗ source in
    purge_findings source (if gone then n + 1 else n) (if gone then kept else kept ++ f ∷ []) fs

module _ (c : Codec) where
  unfoldable pub save_locked : World → Option Error × World
  save_locked w =
      let (e, d) = save_bytes (next_faults w.faults) w.file.path (c.marshal w.file.state) w.disk in
      (e, record w { disk = d; faults = later_faults w.faults })

  -- A missing key reads false.
  unfoldable pub seen : Text → Text → Text → World → Result Bool × World
  seen beacon source id w = elim (lookup (key beacon source id) w.file.state.seen) [
    | none ↦ (ok false, w)
    | some b ↦ (ok b, w)
  ]

  unfoldable pub mark_seen : Text → Text → Text → World → Option Error × World
  mark_seen beacon source id w =
      let s = w.file.state in
      save_locked (with_state w (record s { seen = insert (key beacon source id) true s.seen }))

  unfoldable pub record_finding : Finding → World → Option Error × World
  record_finding f w =
      let s = w.file.state in
      save_locked (
        with_state w (record s {
          seen = insert (key f.beacon f.signal.source f.signal.id) true s.seen;
          findings = s.findings ++ f ∷ [];
        }))

  unfoldable pub claim : Text → Text → World → Option Error × World
  claim finding_id claimant w =
      let s = w.file.state in
      save_locked (with_state w (record s { claims = insert finding_id claimant s.claims }))

  unfoldable pub pending_digest : Text → World → Result (List Finding) × World
  pending_digest beacon w = (ok (keep (λ f. f.beacon =ᵗ beacon) w.file.state.findings), w)

  unfoldable pub purge_source : Text → World → (ℕ × Option Error) × World
  unfolding purge_seen purge_findings
  purge_source source w =
      let s = w.file.state in
      let (n, seen') = purge_seen source 0 s.seen in
      let (m, kept) = purge_findings source n [] s.findings in
      let purged = with_state w (record s { seen = seen'; findings = kept }) in
      let (e, w') = save_locked purged in if m == 0 then ((0, none), purged) else ((m, e), w')

  unfoldable pub close : World → Option Error × World
  close w = (none, w)

-- The file store as a core.Store.
unfoldable pub file_store : Codec → Store World
file_store c = record {
  deduper = record { seen = seen c; mark_seen = mark_seen c };
  recorder = record { record_finding = record_finding c };
  ledger = record { claim = claim c; pending_digest = pending_digest c };
  purger = record { purge_source = purge_source c };
  close = close c;
}
