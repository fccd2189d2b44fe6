-- ===== src/Wiring/Summary/Order.antt =====
-- The summary of a run does not depend on the order in which Go iterates over the map of sources.
use if_sos_beacon.Base.{
  Text, ◌++◌, ltb, if◌then◌else◌, some, Option-cases, inl, inr, ◌≡◌, refl, none, List, [], ◌∷◌, map,
}
use if_sos_beacon.Base.Maps.{Map, lookup}
use if_sos_beacon.Base.Sort.Ascending.{
  IsAscending, sorted-IsAscending, sorted-perm, sorted-eq_of_perm,
}
use if_sos_beacon.Engine.Tally.{no_stats, SourceStats, Stats}
use if_sos_beacon.Schedule.{info, error, level_for}
use if_sos_beacon.Wiring.Summary.{
  source_complete, beacon_complete, Entry, keys, sorted_sources, stats_of, source_entry, summary,
}
use mathlib.Core.Path.{ap₂}
use mathlib.Core.List.{Perm}

-- Two listings of one Go map: the same keys in some order, with the same values.
abbrev pub SameMap : Map SourceStats → Map SourceStats → Type 0
SameMap m n = Perm (keys m) (keys n) × ((name : Text) → lookup name m ≡ lookup name n)

stats_of-SameMap :
    (m n : Map SourceStats) (name : Text)
    → lookup name m ≡ lookup name n
    → stats_of m name ≡ stats_of n name
unfolding stats_of
stats_of-SameMap m n name h = rw (h, stats_of) refl

source_entry-SameMap :
    (beacon : Text) (m n : Map SourceStats)
    → ((name : Text) → lookup name m ≡ lookup name n)
    → (name : Text) → source_entry beacon m name ≡ source_entry beacon n name
unfolding source_entry
source_entry-SameMap beacon m n h name = rw (stats_of-SameMap m n name (h name)) refl

entries-SameMap :
    (beacon : Text) (m n : Map SourceStats)
    → ((name : Text) → lookup name m ≡ lookup name n)
    → (names : List Text) → map (source_entry beacon m) names ≡ map (source_entry beacon n) names
entries-SameMap beacon m n h [] = refl
entries-SameMap beacon m n h (name ∷ names) =
    ap₂ ◌∷◌ (source_entry-SameMap beacon m n h name) (entries-SameMap beacon m n h names)

sorted_sources-SameMap :
    (m n : Map SourceStats) → Perm (keys m) (keys n) → sorted_sources m ≡ sorted_sources n
unfolding sorted_sources
sorted_sources-SameMap m n p = sorted-eq_of_perm (keys m) (keys n) p

-- The line of one source, written out: its counters, at ERROR if they count an error, else at INFO.
abbrev pub line_of : Text → Map SourceStats → Text → Entry
line_of beacon by_source name = elim (lookup name by_source) [
  | none ↦ source_complete info beacon name no_stats
  | some s ↦ source_complete (if ltb 0 s.errors then error else info) beacon name s
]

source_entry-line_of :
    (beacon : Text) (m : Map SourceStats) (name : Text)
    → source_entry beacon m name ≡ line_of beacon m name
unfolding source_entry stats_of level_for
source_entry-line_of beacon m name = elim (Option-cases (lookup name m)) [
  | inl e ↦ rw (e, stats_of, line_of) refl
  | inr (s, e) ↦ rw (e, stats_of, line_of) refl
]

entries-line_of :
    (beacon : Text) (m : Map SourceStats) (names : List Text)
    → map (source_entry beacon m) names ≡ map (line_of beacon m) names
entries-line_of beacon m [] = refl
entries-line_of beacon m (name ∷ names) =
    ap₂ ◌∷◌ (source_entry-line_of beacon m name) (entries-line_of beacon m names)

-- A run that ended without an error logs one line for each source, with its counters and in the ascending
-- order of the names, and then the line of the whole run; a line is at ERROR exactly if its counters
-- count an error. The lines are the same, in the same order, however Go iterates over the map of sources.
pub summary_order :
    (beacon : Text) (st : Stats) (other : Map SourceStats)
    → SameMap st.by_source other
    → (summary beacon (st, none) ≡ summary beacon (record st { by_source = other }, none))
      × (names : List Text) × IsAscending names
      × Perm names (keys st.by_source)
      × (summary beacon (st, none)
          ≡ map (line_of beacon st.by_source) names
            ++ beacon_complete (if ltb 0 st.total.errors then error else info) beacon st.total ∷ [])
unfolding summary sorted_sources level_for
summary_order beacon st other (p, h) = (
  rw (sorted_sources-SameMap st.by_source other p, entries-SameMap beacon st.by_source other h)
      refl,
  sorted_sources st.by_source,
  sorted-IsAscending (keys st.by_source),
  sorted-perm (keys st.by_source),
  rw (entries-line_of beacon st.by_source (sorted_sources st.by_source)) refl,
)
