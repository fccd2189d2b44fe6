-- ===== src/Tests/SpanTests.antt =====
-- The spans of a run over one post that is fetched twice.
use if_sos_beacon.Base.{Text, codes, false, ◌≡◌, ◌=ᵗ◌, refl, none, some, Option, List, [], ◌∷◌, map}
use if_sos_beacon.Base.Int.{◌-ℤ◌, pos}
use if_sos_beacon.Base.Errors.{ok}
use if_sos_beacon.Core.{Deduper, Recorder, Signal, BeaconContext}
use if_sos_beacon.Engine.Pipeline.{process, process_all, is_stale, is_filtered, is_dropped}
use if_sos_beacon.Engine.Run.{run_pipeline, fetch_all}
use if_sos_beacon.Base.Maps.{lookup, insert}
use if_sos_beacon.Base.Floats.{flt, fge}
use if_sos_beacon.Engine.Spans.{
  EngineSpan, observed_run, fetch_span, classify_span, deliver_span, poll_span,
}
use if_sos_beacon.Telemetry.Setup.{Sdk, Globals, init, shut, new_resource}
use if_sos_beacon.Telemetry.{export_spans}
use if_sos_beacon.Telemetry.Allowlist.{keep_spans}
use if_sos_beacon.Ai.{ChatResponse, new_openai_compat}
use if_sos_beacon.Ai.Enrichments.{enriching, enrichment_of, enriched_run_exported}
use if_sos_beacon.Tests.Fixtures.{
  ascii, beacon, always_cry, open_sink, two_posts, stopped_clock, Outside,
}
use if_sos_beacon.Tests.AiTests.{client, answer}

abbrev answered : Signal → BeaconContext → Outside → Option ChatResponse
answered s bc w = some answer

-- A store that keeps nothing.
abbrev forgetful : Deduper Outside
forgetful = record { seen = λ b src i w. (ok false, w); mark_seen = λ b src i w. (none, w) }

abbrev no_record : Recorder Outside
no_record = record { record_finding = λ f w. (none, w) }

abbrev spans : List EngineSpan
spans =
    (observed_run (enriching (λ n. []) client answered) ascii stopped_clock beacon (two_posts ∷ [])
      (pos 0) always_cry open_sink forgetful no_record (pos 0) tt).1.1

enriched_run_exported_example : export_spans keep_spans spans [] ≡ keep_spans spans []
enriched_run_exported_example =
    enriched_run_exported (λ n. []) client answered keep_spans ascii stopped_clock beacon
      (two_posts ∷ []) (pos 0) always_cry open_sink forgetful no_record (pos 0) tt []

-- A fetch, two classifications with their deliveries, and the poll.
span_names :
    map (λ s. s.rest.name) spans
    ≡ codes "source.fetch"
      ∷ codes "chat gpt"
      ∷ codes "finding.deliver"
      ∷ codes "chat gpt"
      ∷ codes "finding.deliver"
      ∷ codes "beacon.poll"
      ∷ []
unfolding observed_run run_pipeline process_all process is_stale is_filtered is_dropped lookup
    insert ◌=ᵗ◌ new_openai_compat flt fge fetch_all fetch_span classify_span deliver_span poll_span
    enrichment_of ◌-ℤ◌
span_names = refl

abbrev sdk : Sdk Outside Text Text
sdk = record {
  exporter = λ w. (ok (codes "grpc"), w);
  default_resource = codes "default";
  named_resource = λ n. n;
  merge = λ a b. ok b;
}

abbrev bare : Globals Text Text Text
bare = record { error_log = none; provider = none }

abbrev endpoint : Text → Text
endpoint name = codes "http://localhost:4317"

set_up :
    (init sdk endpoint (some (codes "log")) bare tt).0.0
    ≡ (shut (record { behind = codes "grpc"; resource = codes "sos-beacon" }), none)
unfolding init new_resource
set_up = refl
