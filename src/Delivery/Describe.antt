-- ===== src/Delivery/Describe.antt =====
-- discord.go, buildDescription and age. The verbs of package fmt and the roundings of a Duration to
-- whole minutes, hours and days, which Go computes in float64, are the parameter `Format`.
use if_sos_beacon.Base.{Text, codes, join, List, [], ◌∷◌, ◌++◌, if◌then◌else◌}
use if_sos_beacon.Base.Int.{ℤ, pos, ltb_ℤ}
use if_sos_beacon.Base.Floats.{Float64}
use if_sos_beacon.Base.Go.{time_sub}
use if_sos_beacon.Core.{Duration, Signal, Finding}
use if_sos_beacon.Delivery.Labels.{attribution}
use if_sos_beacon.Delivery.Pace.{Clock, is_zero}

pub record Format : Type 0 where
  -- %d and %.2f
  pub decimal : ℤ → Text
  pub fixed2 : Float64 → Text
  -- int(d.Minutes()), int(d.Hours()) and int(d.Hours() / 24)
  pub minutes : Duration → ℤ
  pub hours : Duration → ℤ
  pub days : Duration → ℤ

abbrev hour : Duration
hour = pos 3600000000000

abbrev two_days : Duration
two_days = pos 172800000000000

age_label : Format → Duration → Text
age_label x d =
    if ltb_ℤ d hour
    then x.decimal (x.minutes d) ++ codes "m old"
    else if ltb_ℤ d two_days
    then x.decimal (x.hours d) ++ codes "h old"
    else x.decimal (x.days d) ++ codes "d old"

optional : Text → Text → Text → List Text
optional before [] after = []
optional before (c ∷ s) after = (before ++ (c ∷ s) ++ after) ∷ []

module _ {W : Type 0} (x : Format) (c : Clock W) where
  -- The clock is read only for a signal with no time of its fetch.
  unfoldable pub age : Signal → W → Text × W
  unfolding time_sub age_label
  age s w =
      if is_zero s.created_at
      then (codes "age ?", w)
      else if is_zero s.fetched_at
      then (age_label x (time_sub (c.now w).0 s.created_at), (c.now w).1)
      else (age_label x (time_sub s.fetched_at s.created_at), w)

  unfoldable pub build_description : Finding → W → Text × W
  unfolding age optional attribution join
  build_description f w =
      let v = f.verdict in
      let (old, w') = age f.signal w in
      (
        join
            ((codes "**" ++ v.bucket ++ codes "**")
              ∷ (codes "fit " ++ x.fixed2 v.fit)
              ∷ (optional [] v.summary []
                  ++ optional (codes "_") v.reasoning (codes "_")
                  ++ optional [] (attribution f.signal.source f.signal.author) []
                  ++ old
                    ∷ (x.decimal f.signal.score ++ codes " pts")
                    ∷ (x.decimal f.signal.num_comments ++ codes " comments")
                    ∷ codes "🙋 to claim · 🙅 if spam or not worth it"
                    ∷ []))
            (codes " · "),
        w',
      )
