-- ===== src/Tests/ContractTests.antt =====
-- The two stores under a few calls, some of which fail.
use if_sos_beacon.Base.{
  codes, ◌=ᵗ◌, =ᵗ_iff, ◌≡◌, ◌+◌, refl, ◌&&◌, not, none, List, [], ◌∷◌, length, keep, arith,
  if◌then◌else◌,
}
use if_sos_beacon.Base.Errors.{message, ok, err}
use if_sos_beacon.Store.Contract.{Call, perform_all, Explains, HasFailed}
use if_sos_beacon.Store.File.{World, file_store}
use if_sos_beacon.Store.File.Contract.{file_view, IsPlain, Never, file_store-Explains}
use if_sos_beacon.Store.AzureSql.Statements.{same, purge_seen, purge_finding}
use if_sos_beacon.Store.AzureSql.{
  Database, FindingCodec, failed, lost, done, azure_store, purge_source,
}
use if_sos_beacon.Store.AzureSql.Counts.{purge_source_count}
use if_sos_beacon.Store.AzureSql.Digest.{KeepsNames}
use if_sos_beacon.Store.AzureSql.Effects.{IsName, database_view}
use if_sos_beacon.Store.AzureSql.Contract.{azure_store-Explains}
use if_sos_beacon.Tests.Fixtures.{codec, one_row, closing_fails, store_world, apm, hn, finding}

abbrev calls : List Call
calls =
    Call.mark_seen apm hn (codes "2")
    ∷ Call.record_finding finding
    ∷ Call.claim (codes "1") (codes "ann")
    ∷ Call.purge_source (codes "reddit")
    ∷ Call.seen apm hn (codes "1")
    ∷ Call.pending_digest apm
    ∷ []

-- The first save fails.
abbrev faulty : World
faulty = store_world one_row (closing_fails ∷ [])

apm-IsPlain : IsPlain apm
apm-IsPlain = omega arith

hn-IsPlain : IsPlain hn
hn-IsPlain = omega arith

reddit-IsPlain : IsPlain (codes "reddit")
reddit-IsPlain = omega arith

file_store-Explains_example :
    Explains ◌=ᵗ◌ IsPlain Never
      (perform_all (file_store (codec one_row)) calls faulty).0
      (file_view faulty)
      (file_view (perform_all (file_store (codec one_row)) calls faulty).1)
file_store-Explains_example = file_store-Explains (codec one_row) calls faulty (
  (apm-IsPlain, hn-IsPlain),
  (
    (apm-IsPlain, hn-IsPlain),
    (tt, (reddit-IsPlain, ((apm-IsPlain, hn-IsPlain), (apm-IsPlain, tt)))),
  ),
)

-- It has a text for the findings at one row, and reads it back.
abbrev row_codec : FindingCodec
row_codec = record {
  marshal = λ f.
      if f.beacon =ᵗ apm && (f.signal.source =ᵗ hn && f.signal.id =ᵗ codes "1")
      then ok (codes "{}")
      else err (message (codes "another row"));
  unmarshal = λ _. ok finding;
}

row_codec-KeepsNames : KeepsNames row_codec
row_codec-KeepsNames f text h = (
  finding,
  refl,
  ground (arith, =ᵗ_iff f.beacon apm),
  ground (arith, =ᵗ_iff f.signal.source hn),
  ground (arith, =ᵗ_iff f.signal.id (codes "1")),
)

-- The insertion of the finding is refused, and the answer to the purge's commit is lost.
abbrev faulty_database : Database
faulty_database = record {
  tables = record {
    seen = [];
    finding = record { beacon = apm; source = hn; id = codes "1"; text = codes "{}" } ∷ [];
    claim = [];
  };
  outcomes =
      done
      ∷ done
      ∷ failed (message (codes "deadlock"))
      ∷ done
      ∷ done
      ∷ done
      ∷ done
      ∷ done
      ∷ done
      ∷ lost (message (codes "connection reset"))
      ∷ [];
}

azure_store-Explains_example :
    Explains
      (same (λ s. s))
      IsName
      HasFailed
      (perform_all (azure_store (λ s. s) row_codec (λ s. s)) calls faulty_database).0
      (database_view (λ s. s) faulty_database)
      (database_view
        (λ s. s)
        (perform_all (azure_store (λ s. s) row_codec (λ s. s)) calls faulty_database).1)
azure_store-Explains_example =
    azure_store-Explains (λ s. s) row_codec (λ s. s) row_codec-KeepsNames calls faulty_database
      ((tt, tt), ((tt, tt), (tt, (tt, ((tt, tt), (tt, tt))))))
      ((finding, refl, unfold ◌=ᵗ◌ in refl), tt)

-- Two rows of hn, of which the purge counts one, since the other count is refused, and a row of reddit.
abbrev calm_database : Database
calm_database = record {
  tables = record {
    seen =
        record { beacon = apm; source = hn; id = codes "1" }
        ∷ record { beacon = apm; source = codes "reddit"; id = codes "2" }
        ∷ [];
    finding = record { beacon = apm; source = hn; id = codes "1"; text = codes "{}" } ∷ [];
    claim = [];
  };
  outcomes = done ∷ done ∷ done ∷ done ∷ failed (message (codes "no count")) ∷ done ∷ [];
}

purge_source_count_example :
    let r = purge_source (λ s. s) (λ s. s) hn calm_database in
    (r.0 ≡ (length (keep (λ x. same (λ s. s) x.source hn) calm_database.tables.finding) + 0, none))
    × (r.1.tables.finding
        ≡ keep (λ x. not (same (λ s. s) x.source hn)) calm_database.tables.finding)
    × (r.1.tables.seen ≡ keep (λ x. not (same (λ s. s) x.source hn)) calm_database.tables.seen)
    × (r.1.tables.claim ≡ [])
purge_source_count_example =
    purge_source_count (λ s. s) (λ s. s) hn calm_database done (failed (message (codes "no count")))
      [] refl

one_row_counted : (purge_source (λ s. s) (λ s. s) hn calm_database).0 ≡ (1, none)
unfolding purge_source ◌=ᵗ◌ purge_finding purge_seen keep
one_row_counted = refl
