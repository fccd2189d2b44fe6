-- ===== src/Sources/Lobsters/Merge.antt =====
-- The merge of the feeds: one signal for each story, narrowed if any narrowed feed listed it.
use if_sos_beacon.Base.{
  Text, ◌=ᵗ◌, =ᵗ_iff, ℕ, zero, suc, ◌≡◌, ◌≢◌, refl, sym, ap, ◌∙◌, ◌⊎◌, ◌≤◌, Bool, false, ◌&&◌, ◌||◌,
  Option, none, some, List, [], ◌∷◌, ◌++◌, length, any, arith, Bool-cases, bit, inl, inr,
  if◌then◌else◌,
}
use if_sos_beacon.Base.Maps.{lookup, lookup-insert}
use if_sos_beacon.Base.Errors.{Result, ok, err}
use if_sos_beacon.Core.{Time, Signal}
use if_sos_beacon.Sources.Tally.{times, times-concat}
use if_sos_beacon.Sources.Lobsters.{
  Feed, Story, Merged, upgrade, to_signal, merge_story, merge_stories, merge_feed, fetch_feeds,
  fetch_lobsters, feeds, nothing_merged, Lobsters,
}

-- Where the first signal with an id stands.
position : Text → List Signal → Option ℕ
position id [] = none
position id (s ∷ ss) =
    if s.id =ᵗ id then some 0 else elim (position id ss) [ none ↦ none | some i ↦ some (suc i) ]

-- Some signal has the id; some signal with the id is narrowed.
abbrev pub listed : Text → List Signal → Bool
listed id = any (λ s. s.id =ᵗ id)

abbrev pub narrowed : Text → List Signal → Bool
narrowed id = any (λ s. s.id =ᵗ id && s.prenarrowed)

-- The same of a list of stories.
abbrev pub tells : Text → List Story → Bool
tells id = any (λ st. st.short_id =ᵗ id)

position-concat :
    (id : Text) (out : List Signal) (s : Signal)
    → position id (out ++ s ∷ []) ≡ elim (position id out) [
      | some i ↦ some i
      | none ↦ if s.id =ᵗ id then some (length out) else none
    ]
unfolding position
position-concat id [] s = ground arith
position-concat id (t ∷ out) s = ground (arith, position-concat id out s)

position-upgrade :
    (id : Text) (i : ℕ) (b : Bool) (out : List Signal)
    → position id (upgrade i b out) ≡ position id out
unfolding position upgrade
position-upgrade id i b [] = refl
position-upgrade id zero b (s ∷ out) = refl
position-upgrade id (suc i) b (s ∷ out) = ground (arith, position-upgrade id i b out)

narrowed-upgrade :
    (id id' : Text) (i : ℕ) (b : Bool) (out : List Signal)
    → position id out ≡ some i
    → narrowed id' (upgrade i b out) ≡ (narrowed id' out || (id =ᵗ id' && b))
unfolding position upgrade
narrowed-upgrade id id' i b [] h = cc
narrowed-upgrade id id' zero b (s ∷ out) h = ground (arith, =ᵗ_iff s.id id)
narrowed-upgrade id id' (suc i) b (s ∷ out) h = ground (arith, narrowed-upgrade id id' i b out)

times-upgrade :
    (id : Text) (i : ℕ) (b : Bool) (out : List Signal) → times id (upgrade i b out) ≡ times id out
unfolding upgrade
times-upgrade id i b [] = refl
times-upgrade id zero b (s ∷ out) = refl
times-upgrade id (suc i) b (s ∷ out) = omega (arith, times-upgrade id i b out)

narrowed-concat :
    (id : Text) (out : List Signal) (s : Signal)
    → narrowed id (out ++ s ∷ []) ≡ (narrowed id out || (s.id =ᵗ id && s.prenarrowed))
narrowed-concat id [] s = ground arith
narrowed-concat id (t ∷ out) s = ground (arith, narrowed-concat id out s)

times-position :
    (id : Text) (out : List Signal)
    → ((position id out ≡ none) × (times id out ≡ 0))
      ⊎ ((i : ℕ) × (position id out ≡ some i) × (1 ≤ times id out))
unfolding position
times-position id [] = inl (refl, refl)
times-position id (s ∷ out) = elim (Bool-cases (s.id =ᵗ id)) [
  | inl e ↦ inr (0, rw e, rw e (omega arith))
  | inr e ↦ elim (times-position id out) [
    | inl (p, t) ↦ inl (rw (e, p), rw (e, t) (omega arith))
    | inr (i, p, t) ↦ inr (suc i, rw (e, p), rw e (omega arith))
  ]
]

-- What the feeds answer, one after the other.
abbrev pub answers :
    {W : Type 0}
    → (Text → W → Result (List Story) × W)
    → List Feed
    → W
    → List (Feed × Result (List Story))
answers get [] w = []
answers get (f ∷ fs) w = (f, (get f.url w).0) ∷ answers get fs (get f.url w).1

-- The feed works, and lists the id.
abbrev pub feed_tells : Text → Feed × Result (List Story) → Bool
feed_tells id (f, ok sts) = tells id sts
feed_tells id (f, err e) = false

-- The index says where each id stands; the id at hand is there once if `told`, and narrowed if
-- `narrow`.
record Fits (id : Text) (told narrow : Bool) (m : Merged) : Type 0 where
  indexed : (j : Text) → lookup j m.index ≡ position j m.out
  once : times id m.out ≡ bit told
  sticky : narrowed id m.out ≡ narrow

module _ (parse_time : Text → Result Time) (now : Time) (id : Text) (real : id ≢ []) where
  merge_story-Fits :
      (b : Bool) (st : Story) (told narrow : Bool) (m : Merged)
      → Fits id told narrow m
      → Fits id
          (told || st.short_id =ᵗ id)
          (narrow || (st.short_id =ᵗ id && b))
          (merge_story parse_time now b st m)
  unfolding merge_story
  merge_story-Fits b st told narrow m h = elim (Bool-cases (st.short_id =ᵗ [])) [
    | inl blank ↦ rw blank (record {
      indexed = h.indexed;
      once = ground (arith, h.once, =ᵗ_iff st.short_id [], =ᵗ_iff st.short_id id);
      sticky = ground (arith, h.sticky, =ᵗ_iff st.short_id [], =ᵗ_iff st.short_id id);
    })
    | inr named ↦ elim (times-position st.short_id m.out) [
      | inl (p, t) ↦
          let miss : lookup st.short_id m.index ≡ none = h.indexed st.short_id ∙ p in
          let s = to_signal parse_time now b st in
          rw (named, miss)
            (record {
              indexed = λ j. ground (
                arith,
                h.indexed j,
                p,
                lookup-insert st.short_id j (length m.out) m.index,
                position-concat j m.out s,
                =ᵗ_iff st.short_id j,
              );
              once = ground (arith, h.once, t, times-concat id m.out s, =ᵗ_iff st.short_id id);
              sticky = ground (arith, h.sticky, narrowed-concat id m.out s);
            })
      | inr (i, p, t) ↦
          let hit : lookup st.short_id m.index ≡ some i = h.indexed st.short_id ∙ p in
          rw (named, hit)
            (record {
              indexed = λ j. h.indexed j ∙ sym (position-upgrade j i b m.out);
              once = ground (arith, h.once, t, times-upgrade id i b m.out, =ᵗ_iff st.short_id id);
              sticky =
                  narrowed-upgrade st.short_id id i b m.out p
                  ∙ ap (λ x. x || (st.short_id =ᵗ id && b)) h.sticky;
            })
    ]
  ]

  merge_stories-Fits :
      (b : Bool) (sts : List Story) (told narrow : Bool) (m : Merged)
      → Fits id told narrow m
      → Fits id
          (told || tells id sts)
          (narrow || (tells id sts && b))
          (merge_stories parse_time now b sts m)
  unfolding merge_stories
  merge_stories-Fits b [] told narrow m h = record {
    indexed = h.indexed;
    once = ground (arith, h.once);
    sticky = ground (arith, h.sticky);
  }
  merge_stories-Fits b (st ∷ sts) told narrow m h =
      let k = merge_stories-Fits b sts _ _ _ (merge_story-Fits b st told narrow m h) in
      record {
        indexed = k.indexed;
        once = ground (arith, k.once);
        sticky = ground (arith, k.sticky);
      }

  merge_feed-Fits :
      (f : Feed) (r : Result (List Story)) (told narrow : Bool) (m : Merged)
      → Fits id told narrow m
      → Fits id
          (told || feed_tells id (f, r))
          (narrow || (feed_tells id (f, r) && f.prenarrowed))
          (merge_feed parse_time now f r m)
  unfolding merge_feed
  merge_feed-Fits f (ok sts) told narrow m h = merge_stories-Fits f.prenarrowed sts told narrow m h
  merge_feed-Fits f (err e) told narrow m h = record {
    indexed = h.indexed;
    once = ground (arith, h.once);
    sticky = ground (arith, h.sticky);
  }

  module _ {W : Type 0} (get : Text → W → Result (List Story) × W) where
    fetch_feeds-Fits :
        (fs : List Feed) (told narrow : Bool) (m : Merged) (w : W)
        → Fits id told narrow m
        → Fits id
            (told || any (feed_tells id) (answers get fs w))
            (narrow || any (λ a. feed_tells id a && a.0.prenarrowed) (answers get fs w))
            (fetch_feeds parse_time now get fs m w).0
    unfolding fetch_feeds
    fetch_feeds-Fits [] told narrow m w h = record {
      indexed = h.indexed;
      once = ground (arith, h.once);
      sticky = ground (arith, h.sticky);
    }
    fetch_feeds-Fits (f ∷ fs) told narrow m w h =
        let (r, w') = get f.url w in
        let k = fetch_feeds-Fits fs _ _ _ w' (merge_feed-Fits f r told narrow m h) in
        record {
          indexed = k.indexed;
          once = ground (arith, k.once);
          sticky = ground (arith, k.sticky);
        }

-- A fetch returns exactly one signal for each story that some working feed listed, and none for any
-- other id; and that signal is pre-narrowed exactly if some working pre-narrowed feed listed the
-- story, in whatever order the feeds came. The id is taken not to be empty.
pub fetch_lobsters_merge :
    {W : Type 0} (parse_time : Text → Result Time) (clock : W → Time × W)
    (get : Text → W → Result (List Story) × W) (l : Lobsters) (w : W) (id : Text)
    → id ≢ []
    → (times id (fetch_lobsters parse_time clock get l w).0.0
        ≡ bit (any (feed_tells id) (answers get (feeds l) (clock w).1)))
      × (narrowed id (fetch_lobsters parse_time clock get l w).0.0
          ≡ any (λ a. feed_tells id a && a.0.prenarrowed) (answers get (feeds l) (clock w).1))
unfolding fetch_lobsters
fetch_lobsters_merge parse_time clock get l w id real =
    let (now, w') = clock w in
    let k =
      fetch_feeds-Fits parse_time now id real get (feeds l) false false nothing_merged w'
        (record { indexed = λ j. unfold lookup position in refl; once = refl; sticky = refl }) in
    (k.once, k.sticky)
