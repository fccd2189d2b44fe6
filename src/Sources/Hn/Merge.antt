-- ===== src/Sources/Hn/Merge.antt =====
-- One signal for each story, up to the first query that fails.
use if_sos_beacon.Base.{
  Text, ◌=ᵗ◌, =ᵗ_iff, ◌≡◌, ◌≢◌, refl, Bool, true, false, ◌||◌, Option, none, some, List, [], ◌∷◌,
  any, arith, Bool-cases, bit, inl, inr, if◌then◌else◌,
}
use if_sos_beacon.Base.Int.{ℤ}
use if_sos_beacon.Base.Maps.{holds, lookup, lookup-insert}
use if_sos_beacon.Base.Errors.{Error, Result, Result-cases, ok, err}
use if_sos_beacon.Core.{Time}
use if_sos_beacon.Sources.Tally.{times, times-concat}
use if_sos_beacon.Sources.Hn.{
  Hit, Hn, Found, signal_of_hit, take_hit, take_hits, fetch_keywords, fetch_hn, nothing_found,
}

-- The answers to the queries of the keywords that are not empty, the first failure the last of them.
abbrev pub replies :
    {W : Type 0} → (Text → W → Result (List Hit) × W) → List Text → W → List (Result (List Hit))
replies query [] w = []
replies query (kw ∷ kws) w =
    let skip = replies query kws w in
    if kw =ᵗ []
    then skip
    else (let (r, w') = query kw w in
        elim r [ err e ↦ err e ∷ [] | ok hits ↦ ok hits ∷ replies query kws w' ])

abbrev pub lists : Text → List Hit → Bool
lists id = any (λ hit. hit.object_id =ᵗ id)

abbrev pub reply_lists : Text → Result (List Hit) → Bool
reply_lists id (ok hits) = lists id hits
reply_lists id (err e) = false

abbrev pub failed : Result (List Hit) → Bool
failed (ok hits) = false
failed (err e) = true

abbrev pub is_error : Option Error → Bool
is_error none = false
is_error (some e) = true

-- The map holds exactly the ids that came out, and an id comes out at most once.
record Fits (id : Text) (told : Bool) (m : Found) : Type 0 where
  held : holds m.seen id ≡ told
  once : times id m.out ≡ bit told

module _ (unix : ℤ → Time) (now : Time) (id : Text) (real : id ≢ []) where
  take_hit-Fits :
      (hit : Hit) (told : Bool) (m : Found)
      → Fits id told m
      → Fits id (told || hit.object_id =ᵗ id) (take_hit unix now hit m)
  unfolding take_hit
  take_hit-Fits hit told m h =
      elim (Bool-cases (hit.object_id =ᵗ [] || holds m.seen hit.object_id)) [
        | inl skip ↦ rw skip (record {
          held = ground (arith, h.held, skip, =ᵗ_iff hit.object_id [], =ᵗ_iff hit.object_id id);
          once =
              ground
                (arith, h.once, h.held, skip, =ᵗ_iff hit.object_id [], =ᵗ_iff hit.object_id id);
        })
        | inr go ↦
            let s = signal_of_hit unix now hit in
            rw go (record {
              held = ground (arith, h.held, lookup-insert hit.object_id id true m.seen);
              once =
                  ground
                    (arith, h.once, h.held, go, times-concat id m.out s, =ᵗ_iff hit.object_id id);
            })
      ]

  take_hits-Fits :
      (hits : List Hit) (told : Bool) (m : Found)
      → Fits id told m
      → Fits id (told || lists id hits) (take_hits unix now hits m)
  unfolding take_hits
  take_hits-Fits [] told m h = record {
    held = ground (arith, h.held);
    once = ground (arith, h.once);
  }
  take_hits-Fits (hit ∷ hits) told m h =
      let k = take_hits-Fits hits _ _ (take_hit-Fits hit told m h) in
      record { held = ground (arith, k.held); once = ground (arith, k.once) }

  module _ {W : Type 0} (quoted : Text → Text) (query : Text → W → Result (List Hit) × W) where
    fetch_keywords-replies :
        (kws : List Text) (told : Bool) (m : Found) (w : W)
        → Fits id told m
        → (times id (fetch_keywords unix now quoted query kws m w).0.0
            ≡ bit (told || any (reply_lists id) (replies query kws w)))
          × (is_error (fetch_keywords unix now quoted query kws m w).0.1
              ≡ any failed (replies query kws w))
    unfolding fetch_keywords
    fetch_keywords-replies [] told m w h = (ground (arith, h.once), refl)
    fetch_keywords-replies (kw ∷ kws) told m w h = elim (Bool-cases (kw =ᵗ [])) [
      | inl blank ↦ rw blank (fetch_keywords-replies kws told m w h)
      | inr named ↦ elim (Result-cases (query kw w).0) [
        | inl (hits, e) ↦
            let (count, outcome) =
              fetch_keywords-replies kws _ _ (query kw w).1 (take_hits-Fits hits told m h) in
            rw (named, e) (ground (arith, count), outcome)
        | inr (x, e) ↦ rw (named, e) (ground (arith, h.once), refl)
      ]
    ]

-- A fetch returns exactly one signal for each story that an answer listed, and none for any other id,
-- where the answers are those up to the first query that fails; and it reports an error exactly if a
-- query failed. The id is taken not to be empty.
pub fetch_hn_merge :
    {W : Type 0} (unix : ℤ → Time) (clock : W → Time × W) (quoted : Text → Text)
    (query : Text → W → Result (List Hit) × W) (h : Hn) (w : W) (id : Text)
    → id ≢ []
    → (times id (fetch_hn unix clock quoted query h w).0.0
        ≡ bit (any (reply_lists id) (replies query h.keywords (clock w).1)))
      × (is_error (fetch_hn unix clock quoted query h w).0.1
          ≡ any failed (replies query h.keywords (clock w).1))
unfolding fetch_hn
fetch_hn_merge unix clock quoted query h w id real =
    let (now, w') = clock w in
    fetch_keywords-replies unix now id real quoted query h.keywords false nothing_found w'
      (record { held = unfold lookup in refl; once = refl })
