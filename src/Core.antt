-- ===== src/Core.antt =====
-- internal/core/core.go: the domain types, and the four ports as records of functions.
-- An effect of a port is explicit: it takes the state of the outside world and returns the next.
-- time.Time is the nanoseconds since Go's zero time, so IsZero is the test for 0; a Duration is an
-- integer of nanoseconds. A nil slice is the empty list.
use if_sos_beacon.Base.{Text, ℕ, Bool, List, Option}
use if_sos_beacon.Base.Int.{ℤ}
use if_sos_beacon.Base.Maps.{Map}
use if_sos_beacon.Base.Floats.{Float64}
use if_sos_beacon.Base.Errors.{Error, Result}

abbrev pub Time : Type 0
Time = ℤ

abbrev pub Duration : Type 0
Duration = ℤ

pub record Signal : Type 0 where
  pub source : Text
  pub id : Text
  pub title : Text
  pub url : Text
  pub permalink : Text
  pub author : Text
  pub body : Text
  pub tags : List Text
  pub top_comments : List Text
  pub score : ℤ
  pub num_comments : ℤ
  pub created_at : Time
  pub fetched_at : Time
  pub raw : List ℕ
  pub prenarrowed : Bool

pub record Bucket : Type 0 where
  pub name : Text
  pub emoji : Text
  pub definition : Text

pub record Verdict : Type 0 where
  pub bucket : Text
  pub scores : Map Float64
  pub fit : Float64
  pub summary : Text
  pub reasoning : Text

pub record Finding : Type 0 where
  pub beacon : Text
  pub signal : Signal
  pub verdict : Verdict

pub record BeaconContext : Type 0 where
  pub beacon : Text
  pub context : Text
  pub buckets : List Bucket

-- `prefilters_by_keyword` is `none` for a fetcher that does not implement KeywordPrefilter.
pub record Fetcher (W : Type 0) : Type 0 where
  pub name : Text
  pub fetch : W → (List Signal × Option Error) × W
  pub prefilters_by_keyword : Option Bool

pub record Classifier (W : Type 0) : Type 0 where
  pub classify : Signal → BeaconContext → W → Result Verdict × W

pub record Sink (W : Type 0) : Type 0 where
  pub deliver : Finding → W → Option Error × W

pub record Deduper (W : Type 0) : Type 0 where
  pub seen : Text → Text → Text → W → Result Bool × W
  pub mark_seen : Text → Text → Text → W → Option Error × W

pub record Recorder (W : Type 0) : Type 0 where
  pub record_finding : Finding → W → Option Error × W

pub record Ledger (W : Type 0) : Type 0 where
  pub claim : Text → Text → W → Option Error × W
  pub pending_digest : Text → W → Result (List Finding) × W

pub record Purger (W : Type 0) : Type 0 where
  pub purge_source : Text → W → (ℕ × Option Error) × W

-- The full persistence contract. Close has no result that a caller reads.
pub record Store (W : Type 0) : Type 0 where
  pub deduper : Deduper W
  pub recorder : Recorder W
  pub ledger : Ledger W
  pub purger : Purger W
  pub close : W → Option Error × W
