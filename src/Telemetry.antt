-- ===== src/Telemetry.antt =====
-- internal/telemetry/telemetry.go: the allowlist in front of the span exporter. The values of
-- attributes, and the other data of a span, belong to the OpenTelemetry SDK and are parameters.
pub mod Allowlist
pub mod Setup
use if_sos_beacon.Base.{
  Text, codes, Bool, true, false, List, [], ◌∷◌, ◌++◌, map, has_prefix, Option, none, some,
  if◌then◌else◌,
}
use if_sos_beacon.Base.Maps.{Map, holds}
use if_sos_beacon.Base.Errors.{Error}

-- The attribute keys. A key's name has the word Attr in front in Go.
abbrev pub beacon_attr : Text
beacon_attr = codes "sosbeacon.beacon"

abbrev pub mode_attr : Text
mode_attr = codes "sosbeacon.mode"

abbrev pub source_name_attr : Text
source_name_attr = codes "sosbeacon.source"

abbrev pub post_id_attr : Text
post_id_attr = codes "sosbeacon.post_id"

abbrev pub bucket_attr : Text
bucket_attr = codes "sosbeacon.bucket"

abbrev pub fit_attr : Text
fit_attr = codes "sosbeacon.fit"

abbrev pub reasoning_summary_attr : Text
reasoning_summary_attr = codes "sosbeacon.reasoning_summary"

abbrev pub fetched_attr : Text
fetched_attr = codes "sosbeacon.fetched"

abbrev pub delivered_attr : Text
delivered_attr = codes "sosbeacon.delivered"

unfoldable pub source_attr : Text → Text → Text
source_attr source field = codes "sosbeacon.src." ++ source ++ codes "." ++ field

abbrev pub gen_ai_allowed : Map Bool
gen_ai_allowed =
    (codes "gen_ai.operation.name", true)
    ∷ (codes "gen_ai.system", true)
    ∷ (codes "gen_ai.request.model", true)
    ∷ (codes "gen_ai.response.model", true)
    ∷ (codes "gen_ai.usage.input_tokens", true)
    ∷ (codes "gen_ai.usage.output_tokens", true)
    ∷ (codes "gen_ai.response.finish_reasons", true)
    ∷ []

unfoldable pub allowed : Text → Bool
unfolding has_prefix
allowed key = if has_prefix key (codes "sosbeacon.") then true else holds gen_ai_allowed key

module _ {V : Type 0} where
  unfoldable pub filter_attrs : List (Text × V) → List (Text × V)
  unfolding allowed
  filter_attrs [] = []
  filter_attrs (kv ∷ kvs) = let rest = filter_attrs kvs in if allowed kv.0 then kv ∷ rest else rest

-- What a span holds besides its attributes is `R`.
pub record Span (V R : Type 0) : Type 0 where
  pub attributes : List (Text × V)
  pub rest : R

module _ {V R : Type 0} where
  unfoldable pub filtered_span : Span V R → Span V R
  unfolding filter_attrs
  filtered_span s = record s { attributes = filter_attrs s.attributes }

  -- `next` is the ExportSpans of the exporter behind.
  unfoldable pub export_spans :
      {W : Type 0}
      → (List (Span V R) → W → Option Error × W)
      → List (Span V R)
      → W
      → Option Error × W
  unfolding filtered_span
  export_spans next spans w = next (map filtered_span spans) w
