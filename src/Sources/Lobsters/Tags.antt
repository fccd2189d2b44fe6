-- ===== src/Sources/Lobsters/Tags.antt =====
-- What normalizeTags makes of the operator's list.
use if_sos_beacon.Base.{
  Text, ◌=ᵗ◌, =ᵗ_iff, ℕ, ◌+◌, ◌≤◌, ◌<◌, ◌==◌, ◌≡◌, ◌≢◌, refl, Bool, true, false, ◌||◌, List, [],
  ◌∷◌, ◌++◌, length, length-append, any, arith, Bool-cases, bit, inl, inr, ◌⊎◌, ==_iff,
}
use if_sos_beacon.Base.Maps.{Map, insert, lookup, lookup-insert, holds}
use if_sos_beacon.Base.Go.{Platform, to_lower, trim_space}
use if_sos_beacon.Sources.Lobsters.{max_tags, normalize_from, normalize_tags}

-- A tag as the loop reads it.
abbrev pub normal : Platform → Text → Text
normal p t = to_lower p (trim_space t)

abbrev pub has : Text → List Text → Bool
has t = any (λ u. u =ᵗ t)

-- Some input normalises to the tag.
abbrev pub asked_for : Platform → Text → List Text → Bool
asked_for p t = any (λ u. normal p u =ᵗ t)

abbrev pub copies : Text → List Text → ℕ
copies t [] = 0
copies t (u ∷ us) = bit (u =ᵗ t) + copies t us

copies-concat :
    (t u : Text) (out : List Text) → copies t (out ++ u ∷ []) ≡ copies t out + bit (u =ᵗ t)
copies-concat t u [] = omega arith
copies-concat t u (v ∷ out) = omega (arith, copies-concat t u out)

has-concat : (t u : Text) (out : List Text) → has t (out ++ u ∷ []) ≡ (has t out || u =ᵗ t)
has-concat t u [] = ground arith
has-concat t u (v ∷ out) = ground (arith, has-concat t u out)

copies-has : (t : Text) (out : List Text) → has t out ≡ false → copies t out ≡ 0
copies-has t [] h = refl
copies-has t (u ∷ out) h = ground (arith, copies-has t out)

-- What holds of the output at every moment, for one tag.
record Tidy (t : Text) (out : List Text) : Type 0 where
  once : copies t out ≤ 1
  no_blank : copies [] out ≡ 0

-- The loop's map and its output agree.
abbrev Agrees : Map Bool → List Text → Type 0
Agrees seen out = (u : Text) → holds seen u ≡ has u out

Tidy-concat :
    (t u : Text) (out : List Text)
    → (u =ᵗ []) ≡ false
    → has u out ≡ false
    → Tidy t out
    → Tidy t (out ++ u ∷ [])
Tidy-concat t u out real new h = record {
  once = ground (arith, h.once, copies-concat t u out, copies-has t out, =ᵗ_iff u t);
  no_blank = ground (arith, h.no_blank, copies-concat [] u out);
}

Agrees-concat :
    (u : Text) (seen : Map Bool) (out : List Text)
    → Agrees seen out
    → Agrees (insert u true seen) (out ++ u ∷ [])
Agrees-concat u seen out h v = ground (arith, h v, has-concat v u out, lookup-insert u v true seen)

module _ (p : Platform) (t : Text) where
  normalize_from-Tidy :
      (ts : List Text) (seen : Map Bool) (out : List Text)
      → Agrees seen out
      → length out < max_tags
      → Tidy t out
      → (length (normalize_from p seen out ts) ≤ max_tags) × Tidy t (normalize_from p seen out ts)
  unfolding normalize_from
  normalize_from-Tidy [] seen out agrees room h = (omega arith, h)
  normalize_from-Tidy (u ∷ ts) seen out agrees room h =
      let u' = normal p u in
      elim (Bool-cases (u' =ᵗ [] || holds seen u')) [
        | inl skip ↦ rw skip (normalize_from-Tidy ts seen out agrees room h)
        | inr go ↦
            let real : (u' =ᵗ []) ≡ false = ground (arith, go) in
            let new : has u' out ≡ false = ground (arith, go, agrees u') in
            let h' = Tidy-concat t u' out real new h in
            let len = length-append {0} out (u' ∷ []) in
            elim (Bool-cases (length (out ++ u' ∷ []) == max_tags)) [
              | inl full ↦ rw (go, full) (ground (arith, full), h')
              | inr more ↦
                  rw (go, more)
                    (normalize_from-Tidy ts (insert u' true seen) (out ++ u' ∷ [])
                      (Agrees-concat u' seen out agrees) (ground (arith, len, more, room)) h')
            ]
      ]

  -- No tag is made up; below the cap none is lost.
  normalize_from-has :
      (ts : List Text) (seen : Map Bool) (out : List Text)
      → t ≢ []
      → Agrees seen out
      → length (normalize_from p seen out ts) < max_tags
      → has t (normalize_from p seen out ts) ≡ (has t out || asked_for p t ts)
  unfolding normalize_from
  normalize_from-has [] seen out named agrees room = ground arith
  normalize_from-has (u ∷ ts) seen out named agrees room =
      let u' = normal p u in
      elim (Bool-cases (u' =ᵗ [] || holds seen u')) [
        | inl skip ↦
            let k = normalize_from-has ts seen out named agrees (rw skip at room) in
            rw skip (ground (arith, k, skip, agrees u', =ᵗ_iff u' [], =ᵗ_iff u' t))
        | inr go ↦ elim (Bool-cases (length (out ++ u' ∷ []) == max_tags)) [
          | inl full ↦ absurd (ground (arith, rw (go, full) at room, full))
          | inr more ↦
              let k =
                normalize_from-has ts (insert u' true seen) (out ++ u' ∷ []) named
                  (Agrees-concat u' seen out agrees) (rw (go, more) at room) in
              rw (go, more) (ground (arith, k, has-concat t u' out))
        ]
      ]

normalize_tags_bounds :
    (p : Platform) (ts : List Text) (t : Text)
    → (length (normalize_tags p ts) ≤ max_tags)
      × (copies t (normalize_tags p ts) ≤ 1)
      × (copies [] (normalize_tags p ts) ≡ 0)
unfolding normalize_tags
normalize_tags_bounds p ts t =
    let (len, tidy) =
      normalize_from-Tidy p t ts [] [] (λ u. unfold lookup in refl) (omega arith)
        (record { once = omega arith; no_blank = refl }) in
    (len, tidy.once, tidy.no_blank)

normalize_tags_complete :
    (p : Platform) (ts : List Text) (t : Text)
    → t ≢ []
    → length (normalize_tags p ts) < max_tags
    → has t (normalize_tags p ts) ≡ asked_for p t ts
unfolding normalize_tags
normalize_tags_complete p ts t named room =
    normalize_from-has p t ts [] [] named (λ u. unfold lookup in refl) room

-- The tags that go into a feed's URL are at most twelve, none is blank, and none stands twice; there
-- are twelve of them, or a tag is among them exactly if some input is that tag after trimming and
-- lowering. The tag asked about is taken not to be blank.
pub normalize_tags_lem :
    (p : Platform) (ts : List Text) (t : Text)
    → t ≢ []
    → (length (normalize_tags p ts) ≤ max_tags)
      × (copies t (normalize_tags p ts) ≤ 1)
      × (copies [] (normalize_tags p ts) ≡ 0)
      × ((length (normalize_tags p ts) ≡ max_tags)
          ⊎ (has t (normalize_tags p ts) ≡ asked_for p t ts))
normalize_tags_lem p ts t named =
    let (len, once, no_blank) = normalize_tags_bounds p ts t in
    let full_or_complete : (length (normalize_tags p ts) ≡ max_tags)
        ⊎ (has t (normalize_tags p ts) ≡ asked_for p t ts) =
      elim (Bool-cases (length (normalize_tags p ts) == max_tags)) [
        | inl full ↦ inl ((==_iff (length (normalize_tags p ts)) max_tags).0 full)
        | inr room ↦ inr (normalize_tags_complete p ts t named (ground (arith, len, room)))
      ] in
    (len, once, no_blank, full_or_complete)
