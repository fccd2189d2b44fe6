-- ===== src/Tests/ReceiptTests.antt =====
-- The purge command on a file with one finding and its row.
use if_sos_beacon.Base.{
  ◌≡◌, ◌+◌, refl, codes, none, some, [], ◌∷◌, ◌=ᵗ◌, not, keep, false, arith, if◌then◌else◌,
}
use if_sos_beacon.Base.Errors.{ok}
use if_sos_beacon.Store.Key.{is_from}
use if_sos_beacon.Store.File.{
  Codec, World, file_store, open_file, purge_source, save_locked, save_bytes, seen,
}
use if_sos_beacon.Store.File.Purge.{rows}
use if_sos_beacon.Store.File.Reopen.{RoundTrips}
use if_sos_beacon.Store.File.Receipt.{purge_opened-receipt}
use if_sos_beacon.Store.Registry.{purge_opened}
use if_sos_beacon.Tests.Fixtures.{
  one_row, empty, store_world, state_path, apm, hn, finding, blank_disk,
}

-- It keeps the empty state and the one with the finding apart.
abbrev two_states : Codec
two_states = record {
  marshal = λ s. ok (elim s.findings [ [] ↦ codes "{}" | f ∷ fs ↦ codes "{1}" ]);
  unmarshal = λ b.
      let s = if b =ᵗ codes "{}" then empty else one_row in
      ok (record { seen = some s.seen; findings = s.findings; claims = some s.claims });
}

abbrev saved_start : World
saved_start = record (store_world one_row []) {
  disk = record blank_disk { files = λ q. if state_path =ᵗ q then some (codes "{1}") else none };
}

just_opened : open_file two_states none saved_start.disk state_path ≡ ok saved_start.file
unfolding open_file ◌=ᵗ◌
just_opened = refl

purged_state : (purge_source two_states hn saved_start).1.file.state ≡ empty
unfolding purge_source is_from ◌=ᵗ◌ save_locked
purged_state = refl

purged_trips : RoundTrips two_states (purge_source two_states hn saved_start).1.file.state
unfolding ◌=ᵗ◌
purged_trips = rw purged_state (b'{', codes "}", refl, refl)

receipt : (purge_opened (file_store two_states) hn saved_start).0 ≡ ok 2
unfolding purge_opened file_store purge_source is_from ◌=ᵗ◌ save_locked save_bytes
receipt = refl

purge_opened-receipt_example :
    (open_file two_states none
        (purge_opened (file_store two_states) hn saved_start).1.disk
        state_path
      ≡ ok (purge_opened (file_store two_states) hn saved_start).1.file)
    × (2 + rows (purge_opened (file_store two_states) hn saved_start).1 ≡ rows saved_start)
    × ((purge_opened (file_store two_states) hn saved_start).1.file.state.findings
        ≡ keep (λ f. not (f.signal.source =ᵗ hn)) (finding ∷ []))
    × ((seen two_states apm hn
          (codes "1")
          (purge_opened (file_store two_states) hn saved_start).1).0
        ≡ ok false)
purge_opened-receipt_example =
    purge_opened-receipt two_states hn saved_start just_opened 2 apm (codes "1") purged_trips
      (omega arith) (omega arith) receipt
