-- ===== src/Sources/Reddit/Search/Once.antt =====
-- No post comes out twice.
use if_sos_beacon.Base.{
  Text, ◌=ᵗ◌, =ᵗ_iff, ℕ, suc, ◌≤◌, ◌≡◌, refl, true, false, ◌||◌, Option-cases, List, [], ◌∷◌, arith,
  Bool-cases, bit, inl, inr, ◌⊎◌, if◌then◌else◌,
}
use if_sos_beacon.Base.Maps.{holds, lookup, lookup-insert}
use if_sos_beacon.Base.Errors.{Result, ok, err}
use if_sos_beacon.Core.{Time}
use if_sos_beacon.Sources.Tally.{times, times-concat}
use if_sos_beacon.Sources.Reddit.{Reddit, RedditPost, Api, access_token}
use if_sos_beacon.Sources.Reddit.Search.{
  Collected, signal_of_post, take_post, take_posts, take_answer, paced, search, search_keywords,
  with_token, fetch_reddit, or_id,
}

-- The map holds the ids that came out, each once, and never the empty one.
record Fits (id : Text) (m : Collected) : Type 0 where
  once : times id m.out ≡ bit (holds m.seen id)
  named : holds m.seen [] ≡ false

module _ {W : Type 0} (a : Api W) (now : Time) (id : Text) where
  take_post-Fits : (p : RedditPost) (m : Collected) → Fits id m → Fits id (take_post a now p m)
  unfolding take_post signal_of_post
  take_post-Fits p m h =
      let i = or_id p.name p.id in
      elim (Bool-cases (i =ᵗ [] || holds m.seen i || p.stickied)) [
        | inl skip ↦ rw skip h
        | inr go ↦ rw go (record {
          once = ground (
            arith,
            go,
            h.once,
            times-concat id m.out (signal_of_post a now i p),
            lookup-insert i id true m.seen,
            =ᵗ_iff i id,
          );
          named = ground (arith, go, h.named, lookup-insert i [] true m.seen);
        })
      ]

  take_answer-Fits :
      (r : Result (List RedditPost)) (m : Collected) → Fits id m → Fits id (take_answer a now r m)
  unfolding take_answer take_posts
  take_answer-Fits (ok []) m h = h
  take_answer-Fits (ok (p ∷ ps)) m h = take_answer-Fits (ok ps) _ (take_post-Fits p m h)
  take_answer-Fits (err e) m h = record { once = h.once; named = h.named }

  once_bound : (m : Collected) → Fits id m → times id m.out ≤ (if id =ᵗ [] then 0 else 1)
  once_bound m h = ground (arith, h.once, h.named, =ᵗ_iff id [])

  search_keywords-once :
      (token multi : Text) (i : ℕ) (kws : List Text) (m : Collected) (r : Reddit) (w : W)
      → Fits id m
      → times id (search_keywords a now token multi i kws m r w).0.0.0 ≤ (if id =ᵗ [] then 0 else 1)
  unfolding search_keywords
  search_keywords-once token multi i [] m r w h = once_bound m h
  search_keywords-once token multi i (kw ∷ kws) m r w h = elim (Bool-cases (kw =ᵗ [])) [
    | inl blank ↦ rw blank (search_keywords-once token multi (suc i) kws m r w h)
    | inr named ↦ elim (Option-cases (paced a now i w).0) [
      | inr (e, stop) ↦ rw (named, stop) (once_bound m h)
      | inl on ↦
          let ((answer, r'), w') = search a token multi kw r (paced a now i w).1 in
          rw (named, on)
            (search_keywords-once token multi (suc i) kws _ r' w' (take_answer-Fits answer m h))
    ]
  ]

pub List-cases : (xs : List Text) → (xs ≡ []) ⊎ ((x : Text) × (ys : List Text) × (xs ≡ x ∷ ys))
List-cases [] = inl refl
List-cases (x ∷ ys) = inr (x, ys, refl)

with_token-once :
    {W : Type 0} (a : Api W) (t : Result Text) (r : Reddit) (w : W) (id : Text)
    → times id (with_token a t r w).0.0.0 ≤ (if id =ᵗ [] then 0 else 1)
unfolding with_token
with_token-once a (err e) r w id = omega arith
with_token-once a (ok token) r w id =
    let (now, w') = a.now w in
    search_keywords-once a now id token _ 0 r.keywords _ r w'
      (record { once = unfold lookup in refl; named = unfold lookup in refl })

-- A Reddit fetch returns each id at most once and the empty one never, however often the answers listed it, and whichever of
-- its requests failed.
pub fetch_reddit-once :
    {W : Type 0} (a : Api W) (r : Reddit) (w : W) (id : Text)
    → times id (fetch_reddit a r w).0.0.0 ≤ (if id =ᵗ [] then 0 else 1)
unfolding fetch_reddit
fetch_reddit-once a r w id = elim (List-cases r.subreddits) [
  | inl none_set ↦ rw none_set (omega arith)
  | inr (x, ys, some_set) ↦
      let ((t, r'), w') = access_token a (record r { subreddits = x ∷ ys }) w in
      rw some_set (with_token-once a t r' w' id)
]
