-- ===== src/Wiring/Prepare/Usable.antt =====
-- The sources that a beacon runs with, and when it runs.
use if_sos_beacon.Base.{
  Text, codes, ◌=ᵗ◌, =ᵗ_iff, ◌≡◌, refl, sym, ◌∙◌, ap, Bool, true, false, ◌&&◌, any, none, some,
  List, [], ◌∷◌, map, keep, inl, inr, Bool-cases, if◌then◌else◌,
}
use if_sos_beacon.Base.Go.{Platform}
use if_sos_beacon.Config.{BeaconConfig}
use if_sos_beacon.Delivery.Registry.{new_discord, build_sink}
use if_sos_beacon.Sources.Registry.{Adapter, is_none, build_source, build_reddit}
use if_sos_beacon.Wiring.Prepare.{
  add_usable, with_sink, with_fetchers, source_of, usable_sources, prepare, has_reddit, is_usable,
  is_deliverable,
}

abbrev has_one {ℓ} : {A : Type ℓ} → List A → Bool
has_one [] = false
has_one (x ∷ xs) = true

has_one-keep : (q : Text → Bool) (ss : List Text) → any q ss ≡ has_one (keep q ss)
unfolding keep
has_one-keep q [] = refl
has_one-keep q (s ∷ ss) = elim (Bool-cases (q s)) [
  | inl e ↦ rw e refl
  | inr e ↦ rw e (has_one-keep q ss)
]

has_one-map : (fs : List Adapter) → has_one (map source_of fs) ≡ has_one fs
has_one-map [] = refl
has_one-map (f ∷ fs) = refl

module _ (p : Platform) (getenv quote : Text → Text) (b : BeaconConfig) where
  reddit-name :
      (rest : List Adapter)
      → map source_of (add_usable (build_reddit p getenv quote b) rest)
        ≡ (if has_reddit getenv b then codes "reddit" ∷ map source_of rest else map source_of rest)
  unfolding add_usable build_reddit
  reddit-name rest = elim (Bool-cases (is_none b.reddit.subreddits)) [
    | inl e ↦ rw e refl
    | inr e ↦ elim (Bool-cases (getenv b.reddit.client_id_env =ᵗ [])) [
      | inl e' ↦ rw (e, e') refl
      | inr e' ↦ elim (Bool-cases (getenv b.reddit.client_secret_env =ᵗ [])) [
        | inl e'' ↦ rw (e, e', e'') refl
        | inr e'' ↦ rw (e, e', e'') refl
      ]
    ]
  ]

  build_source-name :
      (src : Text) (rest : List Adapter)
      → map source_of (add_usable (build_source p getenv quote src b) rest)
        ≡ (if is_usable getenv b src then src ∷ map source_of rest else map source_of rest)
  unfolding add_usable build_source
  build_source-name src rest = elim (Bool-cases (src =ᵗ codes "hn")) [
    | inl e ↦ rw e (ap (λ s. s ∷ map source_of rest) (sym ((=ᵗ_iff src (codes "hn")).0 e)))
    | inr e ↦ elim (Bool-cases (src =ᵗ codes "lobsters")) [
      | inl e' ↦
          rw (e, e') (ap (λ s. s ∷ map source_of rest) (sym ((=ᵗ_iff src (codes "lobsters")).0 e')))
      | inr e' ↦ elim (Bool-cases (src =ᵗ codes "reddit")) [
        | inl f ↦
            rw (e, e', f)
              (reddit-name rest
                ∙ ap
                    (λ s.
                      if has_reddit getenv b then s ∷ map source_of rest else map source_of rest)
                    (sym ((=ᵗ_iff src (codes "reddit")).0 f)))
        | inr f ↦ rw (e, e', f) refl
      ]
    ]
  ]

  names_from :
      (ss : List Text)
      → map source_of (usable_sources p getenv quote b ss) ≡ keep (is_usable getenv b) ss
  unfolding usable_sources keep
  names_from [] = refl
  names_from (src ∷ ss) =
      build_source-name src (usable_sources p getenv quote b ss)
      ∙ ap (λ r. if is_usable getenv b src then src ∷ r else r) (names_from ss)

  -- The sources that a beacon runs with are, in the order of its list, those that can be built: hn,
  -- lobsters, and reddit where the beacon names a subreddit and both credentials are in the environment.
  usable_sources-names :
      map source_of (usable_sources p getenv quote b b.sources)
      ≡ keep (is_usable getenv b) b.sources
  usable_sources-names = names_from b.sources

  with_sink-build :
      (fs : List Adapter)
      → with_sink fs (build_sink getenv quote b.destination) ≡ (
          if is_deliverable getenv b
          then some (fs, new_discord (getenv b.destination.webhook_env))
          else none)
  unfolding with_sink build_sink
  with_sink-build fs = elim (Bool-cases (b.destination.kind =ᵗ codes "discord")) [
    | inl e ↦ elim (Bool-cases (getenv b.destination.webhook_env =ᵗ [])) [
      | inl e' ↦ rw (e, e') refl
      | inr e' ↦ rw (e, e') refl
    ]
    | inr e ↦ rw e refl
  ]

  with_fetchers-build :
      (fs : List Adapter)
      → with_fetchers fs (build_sink getenv quote b.destination) ≡ (
          if has_one fs && is_deliverable getenv b
          then some (fs, new_discord (getenv b.destination.webhook_env))
          else none)
  unfolding with_fetchers
  with_fetchers-build [] = refl
  with_fetchers-build (f ∷ fs) = with_sink-build (f ∷ fs)

  prepare_lem : prepare p getenv quote b ≡ (
      if any (is_usable getenv b) b.sources && is_deliverable getenv b
      then some (
        usable_sources p getenv quote b b.sources,
        new_discord (getenv b.destination.webhook_env),
      )
      else none)
  unfolding prepare
  prepare_lem =
      rw
        (has_one-keep (is_usable getenv b) b.sources
          ∙ ap has_one (sym usable_sources-names)
          ∙ has_one-map (usable_sources p getenv quote b b.sources))
        (with_fetchers-build (usable_sources p getenv quote b b.sources))

  -- The engine is called exactly where one source of the beacon can be built, the destination is of type
  -- discord and its webhook is in the environment. It is called with every fetcher that can be built, and
  -- with a new sink for that webhook; in every other case the beacon is skipped. The fetchers are, in the
  -- order of the beacon's list, those of hn, lobsters, and reddit where the beacon names a subreddit and
  -- both credentials are in the environment.
  pub prepare-where_usable :
      (prepare p getenv quote b ≡ (
        if any (is_usable getenv b) b.sources && is_deliverable getenv b
        then some (
          usable_sources p getenv quote b b.sources,
          new_discord (getenv b.destination.webhook_env),
        )
        else none))
      × (map source_of (usable_sources p getenv quote b b.sources)
          ≡ keep (is_usable getenv b) b.sources)
  prepare-where_usable = (prepare_lem, usable_sources-names)
