-- ===== src/Telemetry/Allowlist.antt =====
-- What reaches the exporter.
use if_sos_beacon.Base.{
  Text, codes, ◌=ᵗ◌, ◌≡◌, refl, ap, ◌||◌, Bool, true, false, List, [], ◌∷◌, ◌++◌, map, any, keep,
  arith, has_prefix, Option, none,
}
use mathlib.Core.Path.{ap₂}
use if_sos_beacon.Base.Maps.{lookup}
use if_sos_beacon.Base.Errors.{Error}
use if_sos_beacon.Telemetry.{allowed, filter_attrs, Span, filtered_span, export_spans, source_attr}

-- The metadata of a model's turn, key by key.
abbrev pub metadata_keys : List Text
metadata_keys =
    codes "gen_ai.operation.name"
    ∷ codes "gen_ai.system"
    ∷ codes "gen_ai.request.model"
    ∷ codes "gen_ai.response.model"
    ∷ codes "gen_ai.usage.input_tokens"
    ∷ codes "gen_ai.usage.output_tokens"
    ∷ codes "gen_ai.response.finish_reasons"
    ∷ []

-- The key is the beacon's own, or one of those.
abbrev pub is_public : Text → Bool
is_public key = has_prefix key (codes "sosbeacon.") || any (λ k. k =ᵗ key) metadata_keys

abbrev pub public_span : {V R : Type 0} → Span V R → Span V R
public_span s = record s { attributes = keep (λ kv. is_public kv.0) s.attributes }

allowed-is_public : (key : Text) → allowed key ≡ is_public key
unfolding allowed lookup
allowed-is_public key = ground arith

filter_attrs-keep :
    {V : Type 0} (kvs : List (Text × V)) → filter_attrs kvs ≡ keep (λ kv. is_public kv.0) kvs
unfolding filter_attrs keep
filter_attrs-keep [] = refl
filter_attrs-keep (kv ∷ kvs) = ground (arith, allowed-is_public kv.0, filter_attrs-keep kvs)

filtered_spans-public :
    {V R : Type 0} (spans : List (Span V R)) → map filtered_span spans ≡ map public_span spans
unfolding filtered_span
filtered_spans-public [] = refl
filtered_spans-public (s ∷ spans) =
    ap₂ ◌∷◌ (ap (λ kvs. record s { attributes = kvs }) (filter_attrs-keep s.attributes))
      (filtered_spans-public spans)

-- An exporter that keeps what it is handed.
abbrev pub keep_spans :
    {V R : Type 0} → List (Span V R) → List (Span V R) → Option Error × List (Span V R)
keep_spans spans w = (none, w ++ spans)

-- The exporter behind the allowlist is handed every span in its place, with those of its attributes, in
-- their order and with their values, whose key starts with "sosbeacon." or is one of the seven metadata
-- keys, and with its other data as it is. No key of a prompt or of a completion is among those.
pub export_spans_allowlist :
    {V R W : Type 0} (next : List (Span V R) → W → Option Error × W) (spans : List (Span V R))
    (w : W) (t : Text)
    → (export_spans next spans w ≡ next (map public_span spans) w)
      × (is_public (codes "gen_ai.prompt." ++ t) ≡ false)
      × (is_public (codes "gen_ai.completion." ++ t) ≡ false)
unfolding export_spans has_prefix ◌=ᵗ◌
export_spans_allowlist next spans w t =
    (ap (λ ss. next ss w) (filtered_spans-public spans), refl, refl)

-- The counts of the funnel are exported under every source and field.
pub allowed-source_attr : (source field : Text) → allowed (source_attr source field) ≡ true
unfolding allowed source_attr has_prefix
allowed-source_attr source field = refl
