-- ===== src/Wiring/Prepare.antt =====
-- cmd/sos-beacon/main.go, runBeacon up to the call of the engine: what a misconfigured beacon runs with.
pub mod Usable
use if_sos_beacon.Base.{
  Text, codes, ◌=ᵗ◌, =ᵗ_iff, ◌≡◌, refl, sym, ◌∙◌, ap, Bool, true, false, not, ◌&&◌, ◌||◌, Option,
  none, some, List, [], ◌∷◌, map, keep, inl, inr, Bool-cases, ◌↔◌, arith, if◌then◌else◌,
}
use if_sos_beacon.Base.Errors.{Error, Result, Result-cases, ok, err}
use if_sos_beacon.Base.Go.{Platform}
use if_sos_beacon.Config.{BeaconConfig, Destination}
use if_sos_beacon.Delivery.Pace.{Discord}
use if_sos_beacon.Delivery.Registry.{new_discord, build_sink}
use if_sos_beacon.Sources.Registry.{
  Adapter, hn, lobsters, reddit, is_none, build_source, build_reddit,
}

unfoldable add_usable : Result Adapter → List Adapter → List Adapter
add_usable (ok a) rest = a ∷ rest
add_usable (err e) rest = rest

unfoldable with_sink : List Adapter → Result Discord → Option (List Adapter × Discord)
with_sink fetchers (ok sink) = some (fetchers, sink)
with_sink fetchers (err e) = none

unfoldable with_fetchers : List Adapter → Result Discord → Option (List Adapter × Discord)
unfolding with_sink
with_fetchers [] sink = none
with_fetchers (f ∷ fs) sink = with_sink (f ∷ fs) sink

-- The name of an adapter in a beacon's list of sources.
abbrev pub source_of : Adapter → Text
source_of (hn h) = codes "hn"
source_of (lobsters l) = codes "lobsters"
source_of (reddit r) = codes "reddit"

module _ (p : Platform) (getenv quote : Text → Text) where
  -- The loop over b.Sources, which skips a source that does not build.
  unfoldable pub usable_sources : BeaconConfig → List Text → List Adapter
  unfolding add_usable build_source
  usable_sources b [] = []
  usable_sources b (src ∷ rest) =
      add_usable (build_source p getenv quote src b) (usable_sources b rest)

  -- The fetchers and the sink that the engine gets, where it is called.
  unfoldable pub prepare : BeaconConfig → Option (List Adapter × Discord)
  unfolding usable_sources with_fetchers build_sink
  prepare b = with_fetchers (usable_sources b b.sources) (build_sink getenv quote b.destination)

module _ (getenv : Text → Text) where
  -- The documented prerequisites of a source.
  abbrev pub has_reddit : BeaconConfig → Bool
  has_reddit b =
      not (is_none b.reddit.subreddits)
      && not (getenv b.reddit.client_id_env =ᵗ [])
      && not (getenv b.reddit.client_secret_env =ᵗ [])

  abbrev pub is_usable : BeaconConfig → Text → Bool
  is_usable b src =
      src =ᵗ codes "hn" || src =ᵗ codes "lobsters" || (src =ᵗ codes "reddit" && has_reddit b)

  abbrev pub is_deliverable : BeaconConfig → Bool
  is_deliverable b =
      b.destination.kind =ᵗ codes "discord" && not (getenv b.destination.webhook_env =ᵗ [])
