-- ===== src/Wiring.antt =====
-- cmd/sos-beacon/main.go, runBeacon: the store is both the deduper and the recorder of the pipeline.
-- The world of a run is the store's world and, beside it, what the other ports act on.
pub mod Once
pub mod Together
pub mod Prepare
pub mod Start
pub mod Summary
use if_sos_beacon.Base.{Text, Bool, Option}
use if_sos_beacon.Base.Maps.{Map}
use if_sos_beacon.Base.Errors.{Error, Result}
use if_sos_beacon.Base.Go.{Platform}
use if_sos_beacon.Core.{
  Time, Duration, Signal, Verdict, Finding, BeaconContext, Classifier, Sink, Deduper, Recorder,
  Store,
}
use if_sos_beacon.Config.{BeaconConfig}
use if_sos_beacon.Engine.Pipeline.{Env}

module _ {W X : Type 0} where
  abbrev beside {ℓ} : {A : Type ℓ} → X → A × W → A × (W × X)
  beside x (a, w) = (a, (w, x))

  abbrev before {ℓ} : {A : Type ℓ} → W → A × X → A × (W × X)
  before w (a, x) = (a, (w, x))

  abbrev pub store_deduper : Store W → Deduper (W × X)
  store_deduper st = record {
    seen = λ b s i wx. beside wx.1 (st.deduper.seen b s i wx.0);
    mark_seen = λ b s i wx. beside wx.1 (st.deduper.mark_seen b s i wx.0);
  }

  abbrev pub store_recorder : Store W → Recorder (W × X)
  store_recorder st = record {
    record_finding = λ f wx. beside wx.1 (st.recorder.record_finding f wx.0);
  }

  abbrev pub outside_classifier : Classifier X → Classifier (W × X)
  outside_classifier c = record { classify = λ s bc wx. before wx.0 (c.classify s bc wx.1) }

  abbrev pub outside_sink : Sink X → Sink (W × X)
  outside_sink k = record { deliver = λ f wx. before wx.0 (k.deliver f wx.1) }

  -- The environment of a loop over one store, with ports that do not touch the store.
  abbrev pub wired :
      Platform
      → BeaconConfig
      → BeaconContext
      → Store W
      → Classifier X
      → Sink X
      → Duration
      → Time
      → Map Bool
      → Env (W × X)
  wired p cfg bc st c k max_age now prefiltered = record {
    platform = p;
    cfg = cfg;
    context = bc;
    classifier = outside_classifier c;
    sink = outside_sink k;
    deduper = store_deduper st;
    recorder = store_recorder st;
    max_age = max_age;
    now = now;
    prefiltered = prefiltered;
  }
