-- ===== src/Tests/StoreTests.antt =====
-- The file store on small states.
use if_sos_beacon.Base.{
  ◌==◌, map, length, Text, ℕ, codes, ◌=ᵗ◌, ◌+◌, ◌≡◌, ◌≢◌, refl, sym, true, false, none, some, List,
  [], ◌∷◌, ◌++◌, arith, Lacks, All, not, keep, inl, if◌then◌else◌,
}
use if_sos_beacon.Base.Errors.{message, wrap, ok, err}
use if_sos_beacon.Base.Maps.{insert}
use if_sos_beacon.Store.Key.{colon, key, is_from}
use if_sos_beacon.Store.File.{
  Codec, World, State, save_locked, open_file, seen, mark_seen, record_finding, purge_source, calm,
  save_bytes,
}
use if_sos_beacon.Store.File.Save.{
  OldOrNew, save_locked_done, save_locked_failed, save_locked-moments,
}
use if_sos_beacon.Store.File.Reopen.{finding_read, open_file-mark_seen, open_file-record_finding}
use if_sos_beacon.Store.File.Purge.{
  rows, purge_source_rows, seen-purge_source_exact, seen-purge_source_colon,
}
use if_sos_beacon.Core.{Finding}
use if_sos_beacon.Tests.Fixtures.{
  codec, one_row, empty, closing_fails, store_world, state_path, apm, hn, finding,
}

abbrev start : World
start = store_world one_row []

abbrev fresh : World
fresh = store_world empty []

abbrev failing : World
failing = store_world one_row (closing_fails ∷ [])

tmp-ne-path : calm.tmp_name ≢ state_path
tmp-ne-path = ground arith

close_fails :
    (save_locked (codec one_row) failing).0
    ≡ some (wrap (codes "close temp") (message (codes "disk full")))
unfolding save_locked save_bytes
close_fails = refl

save_locked-moments_example :
    All (OldOrNew state_path none (codes "{}")) (save_locked (codec one_row) failing).1.disk.moments
save_locked-moments_example =
    save_locked-moments (codec one_row) failing (codes "{}") tmp-ne-path refl tt

save_locked_failed_example : (save_locked (codec one_row) failing).1.disk.files state_path ≡ none
save_locked_failed_example =
    save_locked_failed (codec one_row) failing
      (wrap (codes "close temp") (message (codes "disk full"))) state_path close_fails
      (inl (λ h. tmp-ne-path (sym h)))

saved : (save_locked (codec one_row) start).0 ≡ none
unfolding save_locked save_bytes
saved = refl

save_locked_done_example :
    (b : List ℕ) × ((codec one_row).marshal one_row ≡ ok b)
    × ((q : Text)
        → (save_locked (codec one_row) start).1.disk.files q
          ≡ (if state_path =ᵗ q then some b else if calm.tmp_name =ᵗ q then none else none))
save_locked_done_example = save_locked_done (codec one_row) start saved

-- `hn` and `apm` hold no colon.
apm-Lacks : Lacks colon apm
apm-Lacks = omega arith

hn-Lacks : Lacks colon hn
hn-Lacks = omega arith

-- Two states as encoding/json writes them, in short: one without findings, and one with a finding
-- whose signal has no raw message.
abbrev empty_text : Text
empty_text = codes "{\"seen\":{},\"findings\":[],\"claims\":{}}"

abbrev row_text : Text
row_text = codes "{\"seen\":{\"apm:hn:1\":true},\"findings\":[{\"Raw\":null}],\"claims\":{}}"

abbrev read_row : Finding
read_row = record finding { signal = record finding.signal { raw = codes "null" } }

abbrev text_codec : Codec
text_codec = record {
  marshal = λ s. if length s.findings == 0 then ok empty_text else ok row_text;
  unmarshal = λ b.
      if b =ᵗ empty_text
      then ok (record { seen = some []; findings = []; claims = some [] })
      else if b =ᵗ row_text
      then ok (record { seen = some one_row.seen; findings = read_row ∷ []; claims = some [] })
      else err (message (codes "unexpected text"));
}

abbrev after_record : World
after_record = (record_finding text_codec finding fresh).1

recorded : (record_finding text_codec finding fresh).0 ≡ none
unfolding record_finding save_locked save_bytes
recorded = refl

records_one_row : after_record.file.state ≡ one_row
unfolding record_finding save_locked save_bytes insert key
records_one_row = refl

row_text_read :
    text_codec.unmarshal row_text
    ≡ ok (record { seen = some one_row.seen; findings = read_row ∷ []; claims = some [] })
unfolding ◌=ᵗ◌
row_text_read = refl

open_file-record_finding_example :
    open_file text_codec none after_record.disk state_path
    ≡ ok (record {
      path = state_path;
      state = record {
        seen = after_record.file.state.seen;
        findings = map finding_read ([] ++ finding ∷ []);
        claims = [];
      };
    })
open_file-record_finding_example =
    open_file-record_finding text_codec finding fresh
      (
        b'{',
        codes "\"seen\":{\"apm:hn:1\":true},\"findings\":[{\"Raw\":null}],\"claims\":{}}",
        rw records_one_row refl,
        rw records_one_row row_text_read,
      )
      recorded

abbrev one_mark : State
one_mark = record { seen = (codes "apm:hn:1", true) ∷ []; findings = []; claims = [] }

abbrev after_mark : World
after_mark = (mark_seen (codec one_mark) apm hn (codes "1") fresh).1

was_marked : (mark_seen (codec one_mark) apm hn (codes "1") fresh).0 ≡ none
unfolding mark_seen save_locked save_bytes
was_marked = refl

marks_one_row : after_mark.file.state ≡ one_mark
unfolding mark_seen save_locked save_bytes insert key
marks_one_row = refl

open_file-mark_seen_example :
    open_file (codec one_mark) none after_mark.disk state_path ≡ ok after_mark.file
open_file-mark_seen_example =
    open_file-mark_seen (codec one_mark) apm hn (codes "1") fresh
      (b'{', b'}' ∷ [], refl, rw marks_one_row) was_marked

purge_source_rows_example :
    ((purge_source (codec empty) hn start).1.file.state.findings
      ≡ keep (λ f. not (f.signal.source =ᵗ hn)) (finding ∷ []))
    × ((purge_source (codec empty) hn start).1.file.state.claims ≡ [])
    × ((purge_source (codec empty) hn start).0.0 + rows (purge_source (codec empty) hn start).1
        ≡ rows start)
purge_source_rows_example = purge_source_rows (codec empty) hn start

two_went : (purge_source (codec empty) hn start).0.0 ≡ 2
unfolding purge_source is_from ◌=ᵗ◌
two_went = refl

none_went : (purge_source (codec empty) (codes "reddit") start).0.0 ≡ 0
unfolding purge_source is_from ◌=ᵗ◌
none_went = refl

seen-purge_source_exact_example :
    (seen (codec empty) apm hn (codes "1") (purge_source (codec empty) hn start).1).0
    ≡ (if hn =ᵗ hn then ok false else (seen (codec empty) apm hn (codes "1") start).0)
seen-purge_source_exact_example =
    seen-purge_source_exact (codec empty) hn apm hn (codes "1") start apm-Lacks hn-Lacks

-- The beacon `apm:b` and its row survive the purge of `hn`.
seen-purge_source_colon_example :
    (seen
      (codec empty)
      (apm ++ colon ∷ codes "b")
      hn
      (codes "1")
      (purge_source (codec empty) hn start).1).0
    ≡ (if codes "b" =ᵗ hn
        then ok false
        else (seen (codec empty) (apm ++ colon ∷ codes "b") hn (codes "1") start).0)
seen-purge_source_colon_example =
    seen-purge_source_colon (codec empty) hn apm (codes "b") hn (codes "1") start apm-Lacks
      (omega arith)
