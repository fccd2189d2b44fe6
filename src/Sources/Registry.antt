-- ===== src/Sources/Registry.antt =====
-- internal/sources/registry.go: the registry of the sources. os.Getenv and the quoting of %q are
-- parameters.
use if_sos_beacon.Base.{
  Text, codes, ◌=ᵗ◌, ◌++◌, Bool, true, false, ◌||◌, List, [], ◌∷◌, if◌then◌else◌,
}
use if_sos_beacon.Base.Sort.{sort_by}
use if_sos_beacon.Base.Errors.{Error, message, detail, Result, ok, err}
use if_sos_beacon.Base.Go.{Platform}
use if_sos_beacon.Config.{BeaconConfig}
use if_sos_beacon.Sources.Hn.{Hn, new_hn}
use if_sos_beacon.Sources.Lobsters.{Lobsters, new_lobsters}
use if_sos_beacon.Sources.Reddit.{Reddit, new_reddit}

-- The fetchers that the constructors build.
pub data Adapter : Type 0 where
  hn : Hn → Adapter
  lobsters : Lobsters → Adapter
  reddit : Reddit → Adapter

abbrev pub unknown_source : Error
unknown_source = message (codes "unknown source")

abbrev pub is_none : List Text → Bool
is_none [] = true
is_none (s ∷ ss) = false

module _ (p : Platform) (getenv quote : Text → Text) where
  unfoldable pub build_reddit : BeaconConfig → Result Adapter
  unfolding new_reddit
  build_reddit b =
      let id = getenv b.reddit.client_id_env in
      let secret = getenv b.reddit.client_secret_env in
      if is_none b.reddit.subreddits
      then err (
          message (
            codes "reddit: beacon "
            ++ quote b.name
            ++ codes " lists the reddit source but no reddit.subreddits"))
      else if id =ᵗ [] || secret =ᵗ []
      then err (
          message (
            codes "reddit: "
            ++ b.reddit.client_id_env
            ++ codes " / "
            ++ b.reddit.client_secret_env
            ++ codes " are empty (app-only OAuth is required; unauthenticated Reddit is gone)"))
      else ok (reddit (new_reddit p id secret b.reddit.subreddits b.keywords))

  unfoldable pub build_source : Text → BeaconConfig → Result Adapter
  unfolding build_reddit
  build_source name b =
      if name =ᵗ codes "hn"
      then ok (hn (new_hn b.keywords))
      else if name =ᵗ codes "lobsters"
      then ok (lobsters (new_lobsters p b.lobsters.tags))
      else if name =ᵗ codes "reddit"
      then build_reddit b
      else err (detail unknown_source (quote name))

-- The keys of the registry, in one of the orders in which Go may iterate over it.
abbrev registered : List Text
registered = codes "hn" ∷ codes "lobsters" ∷ codes "reddit" ∷ []

unfoldable pub names : List Text
unfolding sort_by
names = sort_by (λ name. name) registered
