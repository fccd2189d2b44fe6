-- ===== src/Engine/Tally.antt =====
-- The funnel counters of internal/engine/engine.go. A counter is an int of Go that counts elements of
-- slices in memory; it is a natural number here.
pub mod Totals
use if_sos_beacon.Base.{Text, ℕ, ◌+◌, Option, none, some, List, [], ◌∷◌}
use if_sos_beacon.Base.Maps.{Map, lookup, insert}

pub record SourceStats : Type 0 where
  pub fetched : ℕ
  pub stale : ℕ
  pub seen : ℕ
  pub filtered : ℕ
  pub classified : ℕ
  pub delivered : ℕ
  pub digest : ℕ
  pub dropped : ℕ
  pub errors : ℕ

-- The zero value.
abbrev pub no_stats : SourceStats
no_stats = record {
  fetched = 0;
  stale = 0;
  seen = 0;
  filtered = 0;
  classified = 0;
  delivered = 0;
  digest = 0;
  dropped = 0;
  errors = 0;
}

-- Go embeds the total's fields in Stats.
pub record Stats : Type 0 where
  pub total : SourceStats
  pub by_source : Map SourceStats

abbrev pub no_run : Stats
no_run = record { total = no_stats; by_source = [] }

-- The map holds pointers to counters that nothing else keeps across a step, so it maps to values.
abbrev pub Tally : Type 0
Tally = Map SourceStats

-- What `at` points to: fresh counters on first sight.
unfoldable pub at : Tally → Text → SourceStats
at t source = elim (lookup source t) [ none ↦ no_stats | some s ↦ s ]

-- Which counter a statement such as `src.Stale++` names.
pub data Counter : Type 0 where
  fetched stale seen filtered classified delivered digest dropped errors : Counter

unfoldable pub add_to : Counter → ℕ → SourceStats → SourceStats
add_to fetched n s = record s { fetched = s.fetched + n }
add_to stale n s = record s { stale = s.stale + n }
add_to seen n s = record s { seen = s.seen + n }
add_to filtered n s = record s { filtered = s.filtered + n }
add_to classified n s = record s { classified = s.classified + n }
add_to delivered n s = record s { delivered = s.delivered + n }
add_to digest n s = record s { digest = s.digest + n }
add_to dropped n s = record s { dropped = s.dropped + n }
add_to errors n s = record s { errors = s.errors + n }

-- counts.at(source).Counter += n
unfoldable pub bump : Counter → ℕ → Text → Tally → Tally
unfolding at add_to
bump c n source t = insert source (add_to c n (at t source)) t

-- One round of the loop in rollup: the columns are added.
unfoldable pub plus : SourceStats → SourceStats → SourceStats
plus a b = record {
  fetched = a.fetched + b.fetched;
  stale = a.stale + b.stale;
  seen = a.seen + b.seen;
  filtered = a.filtered + b.filtered;
  classified = a.classified + b.classified;
  delivered = a.delivered + b.delivered;
  digest = a.digest + b.digest;
  dropped = a.dropped + b.dropped;
  errors = a.errors + b.errors;
}

unfoldable pub column_sums : SourceStats → Tally → SourceStats
unfolding plus
column_sums acc [] = acc
column_sums acc ((name, s) ∷ t) = column_sums (plus acc s) t

unfoldable pub rollup : Tally → Stats
unfolding column_sums
rollup t = record { total = column_sums no_stats t; by_source = t }
