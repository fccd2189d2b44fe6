-- ===== src/Wiring/Summary.antt =====
-- cmd/sos-beacon/main.go, runBeacon behind the engine's call, and sortedSources: the lines that it logs.
pub mod Order
use if_sos_beacon.Base.{Text, Option, none, some, List, [], ◌∷◌, ◌++◌, map}
use if_sos_beacon.Base.Maps.{Map, lookup}
use if_sos_beacon.Base.Sort.{sort_by}
use if_sos_beacon.Base.Errors.{Error}
use if_sos_beacon.Engine.Tally.{SourceStats, Stats, no_stats}
use if_sos_beacon.Schedule.{Level, info, error, level_for}

-- The lines "source complete", "beacon complete" and "beacon failed", with their values.
pub data Entry : Type 0 where
  source_complete : Level → Text → Text → SourceStats → Entry
  beacon_complete : Level → Text → SourceStats → Entry
  beacon_failed : Level → Text → Error → Entry

abbrev pub keys : {V : Type 0} → Map V → List Text
keys = map (λ e. e.0)

unfoldable pub sorted_sources : Map SourceStats → List Text
unfolding sort_by
sorted_sources by_source = sort_by (λ name. name) (keys by_source)

-- A missing key reads as the zero value.
unfoldable pub stats_of : Map SourceStats → Text → SourceStats
unfolding lookup
stats_of by_source name = elim (lookup name by_source) [ none ↦ no_stats | some s ↦ s ]

unfoldable pub source_entry : Text → Map SourceStats → Text → Entry
unfolding stats_of level_for
source_entry beacon by_source name =
    let s = stats_of by_source name in source_complete (level_for s.errors) beacon name s

unfoldable pub summary : Text → Stats × Option Error → List Entry
unfolding source_entry sorted_sources level_for
summary beacon (st, some e) = beacon_failed error beacon e ∷ []
summary beacon (st, none) =
    map (source_entry beacon st.by_source) (sorted_sources st.by_source)
    ++ beacon_complete (level_for st.total.errors) beacon st.total ∷ []
