-- ===== src/Tests/SummaryTests.antt =====
-- The summary of a run over two sources.
use if_sos_beacon.Base.{
  map, List, ◌++◌, ltb, if◌then◌else◌, Text, codes, ◌≡◌, ◌=ᵗ◌, refl, none, [], ◌∷◌, Bool-cases, inl,
  inr, sym, false, =ᵗ_iff,
}
use if_sos_beacon.Base.Maps.{Map, lookup}
use if_sos_beacon.Engine.Tally.{SourceStats, Stats, no_stats}
use if_sos_beacon.Schedule.{info, error}
use if_sos_beacon.Wiring.Summary.{beacon_complete, keys, summary}
use if_sos_beacon.Base.Sort.Ascending.{IsAscending}
use if_sos_beacon.Wiring.Summary.Order.{line_of, SameMap, summary_order}
use mathlib.Core.List.{Perm}
use mathlib.Core.List.Perm
use if_sos_beacon.Tests.Fixtures.{hn}

abbrev busy : SourceStats
busy = record no_stats { fetched = 3; errors = 1 }

abbrev one_order : Map SourceStats
one_order = (codes "reddit", busy) ∷ (hn, no_stats) ∷ []

abbrev other_order : Map SourceStats
other_order = (hn, no_stats) ∷ (codes "reddit", busy) ∷ []

abbrev stats : Stats
stats = record { total = busy; by_source = one_order }

-- No text is both names.
other_name : (name : Text) → name ≡ hn → (codes "reddit" =ᵗ name) ≡ false
unfolding ◌=ᵗ◌
other_name name q = rw q refl

orders_agree : (name : Text) → lookup name one_order ≡ lookup name other_order
unfolding lookup
orders_agree name = elim (Bool-cases (hn =ᵗ name)) [
  | inr n ↦ rw n refl
  | inl e ↦ rw (e, other_name name (sym ((=ᵗ_iff hn name).0 e))) refl
]

one_order-SameMap : SameMap one_order other_order
one_order-SameMap = (Perm.swap hn (codes "reddit") [], orders_agree)

summary_order_example :
    (summary (codes "apm") (stats, none)
      ≡ summary (codes "apm") (record stats { by_source = other_order }, none))
    × (names : List Text) × IsAscending names
    × Perm names (keys stats.by_source)
    × (summary (codes "apm") (stats, none)
        ≡ map (line_of (codes "apm") stats.by_source) names
          ++ beacon_complete
              (if ltb 0 stats.total.errors then error else info)
              (codes "apm")
              stats.total
            ∷ [])
summary_order_example = summary_order (codes "apm") stats other_order one_order-SameMap
