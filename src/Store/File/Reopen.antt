-- ===== src/Store/File/Reopen.antt =====
-- What OpenFile finds after a run: the store as it was saved last.
use if_sos_beacon.Base.{
  Text, codes, map, ℕ, ◌≡◌, ◌≢◌, none, some, List, [], ◌∷◌, ◌++◌, true, arith, =ᵗ_refl, inl,
}
use if_sos_beacon.Base.Errors.{Error, ok}
use if_sos_beacon.Base.Maps.{insert}
use if_sos_beacon.Core.{Finding}
use if_sos_beacon.Store.Key.{key}
use if_sos_beacon.Store.File.{
  Codec, State, World, open_file, save_locked, next_faults, mark_seen, record_finding, with_state,
}
use if_sos_beacon.Store.File.Save.{save_locked_done, save_locked_failed}

-- encoding/json writes the first state as some text, and reads the second from there.
abbrev ReadsAs : Codec → State → State → Type 0
ReadsAs c s s' =
    (b : ℕ) × (bs : List ℕ) × (c.marshal s ≡ ok (b ∷ bs))
    × (c.unmarshal (b ∷ bs)
        ≡ ok (record { seen = some s'.seen; findings = s'.findings; claims = some s'.claims }))

-- encoding/json writes the state as some text, and reads it back from there.
abbrev pub RoundTrips : Codec → State → Type 0
RoundTrips c s = ReadsAs c s s

-- encoding/json writes a nil json.RawMessage as `null`, and reads `null` as the message of these four
-- bytes. No source sets Signal.Raw.
abbrev pub raw_read : List ℕ → List ℕ
raw_read [] = codes "null"
raw_read (x ∷ xs) = x ∷ xs

abbrev pub finding_read : Finding → Finding
finding_read f = record f { signal = record f.signal { raw = raw_read f.signal.raw } }

-- The state with each nil message read back.
abbrev pub state_read : State → State
state_read s = record s { findings = map finding_read s.findings }

-- encoding/json writes the state as some text, and reads it back from there but for its nil messages.
abbrev pub ReadsBack : Codec → State → Type 0
ReadsBack c s = ReadsAs c s (state_read s)

reopen_as :
    (c : Codec) (s : State) (w : World)
    → ReadsAs c w.file.state s
    → (save_locked c w).0 ≡ none
    → open_file c none (save_locked c w).1.disk w.file.path ≡ ok (record w.file { state = s })
unfolding open_file
reopen_as c s w (b, bs, m, u) h =
    let (b', m', files) = save_locked_done c w h in
    ground (arith, files w.file.path, =ᵗ_refl w.file.path)

pub reopen-save_locked :
    (c : Codec) (w : World)
    → RoundTrips c w.file.state
    → (save_locked c w).0 ≡ none
    → open_file c none (save_locked c w).1.disk w.file.path ≡ ok w.file
reopen-save_locked c w r h = reopen_as c w.file.state w r h

-- A row marked as seen survives a restart: if MarkSeen reports no error, opening the file again gives
-- the store that the process had in memory. The codec is taken to read back what it writes for that
-- state.
pub open_file-mark_seen :
    (c : Codec) (b s i : Text) (w : World)
    → RoundTrips c (mark_seen c b s i w).1.file.state
    → (mark_seen c b s i w).0 ≡ none
    → open_file c none (mark_seen c b s i w).1.disk w.file.path ≡ ok (mark_seen c b s i w).1.file
unfolding mark_seen save_locked
open_file-mark_seen c b s i w r h =
    let st = w.file.state in
    reopen-save_locked c (with_state w (record st { seen = insert (key b s i) true st.seen })) r h

-- A recorded finding survives a restart: if Record reports no error, opening the file again gives the
-- store that the process had in memory, the new finding included, but that the Raw of a signal which
-- was nil is the text `null`. The codec is taken to read back, with this change, what it writes for
-- that state.
pub open_file-record_finding :
    (c : Codec) (f : Finding) (w : World)
    → ReadsBack c (record_finding c f w).1.file.state
    → (record_finding c f w).0 ≡ none
    → open_file c none (record_finding c f w).1.disk w.file.path
      ≡ ok (record {
        path = w.file.path;
        state = record {
          seen = (record_finding c f w).1.file.state.seen;
          findings = map finding_read (w.file.state.findings ++ f ∷ []);
          claims = w.file.state.claims;
        };
      })
unfolding record_finding save_locked
open_file-record_finding c f w r h =
    let st = w.file.state in
    let new : State = record st {
      seen = insert (key f.beacon f.signal.source f.signal.id) true st.seen;
      findings = st.findings ++ f ∷ [];
    } in
    reopen_as c (state_read new) (with_state w new) r h

-- After a failed save the file still opens as it did before, if the temporary name is not the target's.
pub open_file-save_locked_failed :
    (c : Codec) (w : World) (e : Error)
    → w.file.path ≢ (next_faults w.faults).tmp_name
    → (save_locked c w).0 ≡ some e
    → open_file c none (save_locked c w).1.disk w.file.path ≡ open_file c none w.disk w.file.path
unfolding open_file
open_file-save_locked_failed c w e fresh h =
    ground (arith, save_locked_failed c w e w.file.path h (inl fresh))
