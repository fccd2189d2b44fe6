-- ===== src/Sources/Web/Credentials.antt =====
-- Where the credentials of Reddit go.
use if_sos_beacon.Base.{Text, ◌=ᵗ◌, ◌≡◌, true, Option, List, any, All, ◌⊎◌}
use if_sos_beacon.Base.Floats.{Float64}
use if_sos_beacon.Base.Errors.{Error, Result}
use if_sos_beacon.Core.{Time, Duration}
use if_sos_beacon.Sources.Reddit.{Reddit, TokenResponse, RedditPost, Api}
use if_sos_beacon.Sources.Web.{
  Request, Web, reddit_api, token_request, search_request, reddit_token_url, reddit_api_base,
}
use if_sos_beacon.Sources.Web.Sent.{Sending, recorded_web}

-- The exchange of the beacon's credentials, or a search for one of its keywords.
abbrev pub IsOwn : Reddit → Request → Type 0
IsOwn r q =
    (q ≡ token_request reddit_token_url r.client_id r.client_secret)
    ⊎ ((token multi kw : Text) × (any (λ u. u =ᵗ kw) r.keywords ≡ true)
        × (q ≡ search_request reddit_api_base token multi kw))

module _ {W : Type 0} (n : Web W) (r : Reddit) where
  abbrev Owned : Sending W → Type 0
  Owned o = All (IsOwn r) o.1

  abbrev pub still : {A : Type 0} → (W → A × W) → Sending W → A × Sending W
  still f o = let (x, w) = f o.0 in (x, (w, o.1))

  module _ (now : W → Time × W) (wait : Duration → W → Option Error × W) (quoted : Text → Text)
      (unix : Float64 → Time) (tokens : Text → Result TokenResponse)
      (posts : Text → Result (List RedditPost)) where
    abbrev api : Api (Sending W)
    api = reddit_api (recorded_web n) (still now) (λ d. still (wait d)) quoted unix tokens posts
