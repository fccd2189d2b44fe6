-- ===== src/Config.antt =====
-- internal/config/config.go: the configuration and its defaults. The YAML library is a parameter.
use if_sos_beacon.Base.{Text, codes, List, [], ◌∷◌, ◌=ᵗ◌, map, if◌then◌else◌}
use if_sos_beacon.Base.Floats.{Float64, is_zero, half, three_quarters}
use if_sos_beacon.Base.Errors.{message, wrap, Result, ok, err}
use if_sos_beacon.Core.{Bucket}

pub record AiConfig : Type 0 where
  pub provider : Text
  pub base_url_env : Text
  pub model : Text
  pub key_env : Text
  pub api_version : Text

pub record StoreConfig : Type 0 where
  pub kind : Text
  pub path : Text
  pub dsn : Text
  pub server : Text
  pub database : Text

pub record RedditConfig : Type 0 where
  pub subreddits : List Text
  pub client_id_env : Text
  pub client_secret_env : Text

pub record LobstersConfig : Type 0 where
  pub tags : List Text

pub record Destination : Type 0 where
  pub kind : Text
  pub webhook_env : Text

pub record Thresholds : Type 0 where
  pub realtime : Float64
  pub digest : Float64

pub record BeaconConfig : Type 0 where
  pub name : Text
  pub mode : Text
  pub sources : List Text
  pub reddit : RedditConfig
  pub lobsters : LobstersConfig
  pub filter : Text
  pub keywords : List Text
  pub context : Text
  pub buckets : List Bucket
  pub destination : Destination
  pub thresholds : Thresholds
  pub max_age : Text
  pub poll_interval : Text

pub record Config : Type 0 where
  pub ai : AiConfig
  pub store : StoreConfig
  pub beacons : List BeaconConfig

-- if x == "" { x = d }
unfoldable pub or_default : Text → Text → Text
or_default x d = if x =ᵗ [] then d else x

-- The same for a threshold of 0 and for an empty list of sources.
unfoldable pub or_threshold : Float64 → Float64 → Float64
or_threshold x d = if is_zero x then d else x

unfoldable pub or_sources : List Text → List Text
or_sources [] = codes "hn" ∷ []
or_sources (s ∷ ss) = s ∷ ss

unfoldable pub beacon_defaults : BeaconConfig → BeaconConfig
unfolding or_default or_threshold or_sources
beacon_defaults b = record b {
  mode = or_default b.mode (codes "dispatch");
  sources = or_sources b.sources;
  thresholds = record {
    realtime = or_threshold b.thresholds.realtime three_quarters;
    digest = or_threshold b.thresholds.digest half;
  };
  reddit = record b.reddit {
    client_id_env = or_default b.reddit.client_id_env (codes "REDDIT_CLIENT_ID");
    client_secret_env = or_default b.reddit.client_secret_env (codes "REDDIT_CLIENT_SECRET");
  };
}

unfoldable pub apply_defaults : Config → Config
unfolding beacon_defaults or_default
apply_defaults c = record c {
  ai = record c.ai { provider = or_default c.ai.provider (codes "openai-compatible") };
  store = record c.store {
    kind = or_default c.store.kind (codes "file");
    path = or_default c.store.path (codes "./sos-state.json");
  };
  beacons = map beacon_defaults c.beacons;
}

check_beacons : Config → Result Config
check_beacons c = elim c.beacons [
  | [] ↦ err (message (codes "config has no beacons"))
  | b ∷ bs ↦ ok c
]

-- `contents` is what os.ReadFile gives for the path, and `parse` is yaml.Unmarshal.
unfoldable pub load : (Text → Result Config) → Result Text → Result Config
unfolding apply_defaults check_beacons
load parse (err e) = err (wrap (codes "read config") e)
load parse (ok contents) = elim (parse contents) [
  | err e ↦ err (wrap (codes "parse config") e)
  | ok c ↦ check_beacons (apply_defaults c)
]
