-- ===== src/Tests/WiringTests.antt =====
-- A beacon whose sources are not all usable.
use if_sos_beacon.Base.{
  Text, codes, ◌≡◌, ◌&&◌, none, some, [], ◌∷◌, ◌=ᵗ◌, map, keep, any, if◌then◌else◌,
}
use if_sos_beacon.Config.{BeaconConfig}
use if_sos_beacon.Delivery.Registry.{new_discord}
use if_sos_beacon.Wiring.Prepare.{source_of, usable_sources, prepare, is_usable, is_deliverable}
use if_sos_beacon.Wiring.Prepare.Usable.{prepare-where_usable}
use if_sos_beacon.Base.{false, refl}
use if_sos_beacon.Base.Int.{pos}
use if_sos_beacon.Base.Errors.{message, wrap, detail, ok, err}
use if_sos_beacon.Config.{Config}
use if_sos_beacon.Ai.Registry.{unknown_provider}
use if_sos_beacon.Store.AzureSql.{Database, done, failed}
use if_sos_beacon.Store.AzureSql.Open.{open_azure_sql}
use if_sos_beacon.Wiring.Start.{run}
use if_sos_beacon.Tests.Fixtures.{ascii, beacon, hn, codec, empty, state_path, blank_disk}

abbrev mixed : BeaconConfig
mixed = record beacon { sources = codes "lobsters" ∷ codes "twitter" ∷ codes "reddit" ∷ hn ∷ [] }

-- HOOK is set.
abbrev getenv : Text → Text
getenv name = if name =ᵗ codes "HOOK" then codes "https://hook" else []

abbrev plainly : Text → Text
plainly s = s

prepare-where_usable_example :
    (prepare ascii getenv plainly mixed ≡ (
      if any (is_usable getenv mixed) mixed.sources && is_deliverable getenv mixed
      then some (
        usable_sources ascii getenv plainly mixed mixed.sources,
        new_discord (codes "https://hook"),
      )
      else none))
    × (map source_of (usable_sources ascii getenv plainly mixed mixed.sources)
        ≡ keep (is_usable getenv mixed) mixed.sources)
unfolding ◌=ᵗ◌
prepare-where_usable_example = prepare-where_usable ascii getenv plainly mixed

abbrev configured : Text → Config
configured provider = record {
  ai = record {
    provider = provider;
    base_url_env = [];
    model = codes "gpt";
    key_env = codes "KEY";
    api_version = [];
  };
  store = record {
    kind = codes "file";
    path = state_path;
    dsn = [];
    server = codes "db";
    database = codes "sos";
  };
  beacons = beacon ∷ [];
}

abbrev blank_database : Database
blank_database = record {
  tables = record { seen = []; finding = []; claim = [] };
  outcomes = done ∷ failed (message (codes "refused")) ∷ [];
}

-- A provider that is not registered ends the start.
start_refused :
    (run ascii getenv plainly
      (codec empty)
      none
      (pos 0)
      (pos 0)
      false
      (ok (configured (codes "x")))
      blank_disk
      blank_database).0
    ≡ err (detail unknown_provider (codes "x"))
unfolding run ◌=ᵗ◌
start_refused = refl

-- A server that does not answer is reported.
connect_refused :
    (open_azure_sql [] (configured (codes "x")).store blank_database).0
    ≡ some (wrap (codes "azuresql: connect") (message (codes "refused")))
unfolding open_azure_sql
connect_refused = refl
