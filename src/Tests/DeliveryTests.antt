-- ===== src/Tests/DeliveryTests.antt =====
-- One post's presentation, two posts in a row, and one span.
use if_sos_beacon.Base.{
  Text, codes, ◌≤◌, ◌<◌, ◌≡◌, ◌⊎◌, refl, ◌++◌, ◌=ᵗ◌, none, some, false, [], ◌∷◌, length, take, map,
  arith,
}
use if_sos_beacon.Base.Int.{ℤ, pos, ◌+ℤ◌, ◌-ℤ◌, ◌≤ℤ◌, wrap64}
use if_sos_beacon.Base.Maps.{lookup}
use if_sos_beacon.Delivery.Labels.{embed_title, source_label}
use if_sos_beacon.Delivery.Labels.Limit.{IsHeadline, embed_title_bounds}
use if_sos_beacon.Delivery.Pace.{Clock, Discord, pace}
use if_sos_beacon.Delivery.Pace.Spacing.{ClockLaws, pace_spacing}
use if_sos_beacon.Telemetry.{Span, export_spans}
use if_sos_beacon.Telemetry.Allowlist.{export_spans_allowlist, keep_spans, is_public, public_span}
use if_sos_beacon.Base.Errors.{message, wrap, ok}
use if_sos_beacon.Delivery.Describe.{Format}
use if_sos_beacon.Delivery.Deliver.{Poster, url_error, broken, deliver, post_embed}
use if_sos_beacon.Tests.Fixtures.{ascii, post, finding, Outside}

embed_title_bounds_example :
    (headline : Text) × IsHeadline post headline
    × (let full = codes "[" ++ (source_label ascii post.source).0 ++ codes "] " ++ headline in
        (length full ≤ 256) × (embed_title ascii post ≡ full)
        ⊎ (256 < length full)
          × (embed_title ascii post ≡ take 255 full ++ codes "…")
          × (length (embed_title ascii post) ≡ 256))
embed_title_bounds_example = embed_title_bounds ascii post

hn_title : embed_title ascii post ≡ codes "[HN] Datadog bill tripled"
unfolding embed_title ◌=ᵗ◌ lookup
hn_title = refl

-- The world is the time; reading the clock takes none, and a wait lasts as long as asked.
abbrev exact_clock : Clock ℤ
exact_clock = record { now = λ t. (t, t); wait = λ d t. (none, t +ℤ d) }

exact_clock-ClockLaws : ClockLaws exact_clock (λ t. t)
exact_clock-ClockLaws = record {
  forward = λ t. omega arith;
  read = λ t. omega arith;
  waited = λ d t e. omega arith;
}

abbrev sink : Discord
sink = record {
  webhook_url = codes "https://hook";
  min_spacing = pos 2000000000;
  last_post = pos 1000;
}

pace_done : (pace exact_clock sink (pos 500001000)).0.0 ≡ none
unfolding pace ◌-ℤ◌ wrap64
pace_done = refl

pace_spacing_example :
    sink.last_post +ℤ sink.min_spacing ≤ℤ (pace exact_clock sink (pos 500001000)).0.1.last_post
pace_spacing_example =
    pace_spacing exact_clock (λ t. t) exact_clock-ClockLaws sink (pos 500001000)
      (omega arith, omega arith) (omega arith) (omega arith) pace_done

abbrev span : Span Text Outside
span = record {
  attributes = (codes "sosbeacon.fit", []) ∷ (codes "gen_ai.prompt.0", codes "secret") ∷ [];
  rest = tt;
}

export_spans_allowlist_example :
    (export_spans keep_spans (span ∷ []) [] ≡ keep_spans (map public_span (span ∷ [])) [])
    × (is_public (codes "gen_ai.prompt." ++ codes "0") ≡ false)
    × (is_public (codes "gen_ai.completion." ++ codes "0") ≡ false)
export_spans_allowlist_example = export_spans_allowlist keep_spans (span ∷ []) [] (codes "0")

abbrev blank_format : Format
blank_format = record {
  decimal = λ n. [];
  fixed2 = λ n. [];
  minutes = λ d. d;
  hours = λ d. d;
  days = λ d. d;
}

-- No connection comes about, and the error names the URL.
abbrev unreachable : Poster ℤ
unreachable = record {
  encode = λ e. ok e.title;
  build = λ u b. none;
  send = λ u b w. (broken (url_error (codes "Post") u (message (codes "no route"))), w);
  decimal = λ n. [];
}

abbrev secret_sink : Discord
secret_sink = record sink { webhook_url = codes "https://hook/secret" }

no_secret :
    (deliver ascii blank_format exact_clock unreachable secret_sink finding (pos 500001000)).0.0
    ≡ some (wrap (codes "discord Post") (message (codes "no route")))
unfolding deliver pace ◌-ℤ◌ wrap64 post_embed
no_secret = refl
