-- ===== src/Sources/Lobsters.antt =====
-- internal/sources/lobsters.go: the tags, the feeds, and the merge of the stories that they list.
pub mod Tags
pub mod Merge
use if_sos_beacon.Base.{
  Text, codes, join, ℕ, zero, suc, ◌==◌, ◌=ᵗ◌, Bool, true, false, ◌||◌, Option, none, some, List,
  [], ◌∷◌, ◌++◌, length, if◌then◌else◌,
}
use if_sos_beacon.Base.Int.{ℤ, pos}
use if_sos_beacon.Base.Maps.{Map, lookup, insert, holds}
use if_sos_beacon.Base.Errors.{Error, Result, ok, err}
use if_sos_beacon.Base.Go.{Platform, to_lower, trim_space}
use if_sos_beacon.Core.{Time, Signal}

abbrev pub max_tags : ℕ
max_tags = 12

-- The loop of normalizeTags. At the cap it breaks off.
normalize_from : Platform → Map Bool → List Text → List Text → List Text
unfolding to_lower trim_space
normalize_from p seen out [] = out
normalize_from p seen out (t ∷ ts) =
    let t' = to_lower p (trim_space t) in
    let skip = normalize_from p seen out ts in
    let out' = out ++ t' ∷ [] in
    let go = normalize_from p (insert t' true seen) out' ts in
    if t' =ᵗ [] || holds seen t' then skip else if length out' == max_tags then out' else go

unfoldable pub normalize_tags : Platform → List Text → List Text
unfolding normalize_from
normalize_tags p ts = normalize_from p [] [] ts

pub record Feed : Type 0 where
  pub url : Text
  pub prenarrowed : Bool

pub record Lobsters : Type 0 where
  pub base : Text
  pub tags : List Text

unfoldable pub new_lobsters : Platform → List Text → Lobsters
unfolding normalize_tags
new_lobsters p tags = record { base = codes "https://lobste.rs"; tags = normalize_tags p tags }

tag_feeds : Text → List Text → List Feed
unfolding join
tag_feeds base [] = []
tag_feeds base (t ∷ ts) =
    record {
      url = base ++ codes "/t/" ++ join (t ∷ ts) (codes ",") ++ codes ".json";
      prenarrowed = true;
    }
    ∷ []

unfoldable pub feeds : Lobsters → List Feed
unfolding tag_feeds
feeds l =
    record { url = l.base ++ codes "/newest.json"; prenarrowed = false } ∷ tag_feeds l.base l.tags

pub record Story : Type 0 where
  pub short_id : Text
  pub created_at : Text
  pub title : Text
  pub url : Text
  pub score : ℤ
  pub comment_count : ℤ
  pub description : Text
  pub comments_url : Text
  pub tags : List Text
  pub submitter : Text

-- The variables of the loops in Fetch.
pub record Merged : Type 0 where
  pub index : Map ℕ
  pub out : List Signal
  pub first_error : Option Error

-- out[i].Prenarrowed = out[i].Prenarrowed || b
unfoldable pub upgrade : ℕ → Bool → List Signal → List Signal
upgrade i b [] = []
upgrade zero b (s ∷ ss) = record s { prenarrowed = s.prenarrowed || b } ∷ ss
upgrade (suc i) b (s ∷ ss) = s ∷ upgrade i b ss

-- `parse_time` is time.Parse with RFC 3339; a time that does not parse stays zero.
created : (Text → Result Time) → Text → Time
created parse_time t = elim (parse_time t) [ ok u ↦ u | err e ↦ pos 0 ]

abbrev pub source_name : Text
source_name = codes "lobsters"

module _ (parse_time : Text → Result Time) (now : Time) where
  to_signal : Bool → Story → Signal
  unfolding created
  to_signal narrowed st = record {
    source = source_name;
    id = st.short_id;
    title = st.title;
    url = st.url;
    permalink = st.comments_url;
    author = st.submitter;
    body = st.description;
    tags = st.tags;
    top_comments = [];
    score = st.score;
    num_comments = st.comment_count;
    created_at = created parse_time st.created_at;
    fetched_at = now;
    raw = [];
    prenarrowed = narrowed;
  }

  merge_new : Bool → Story → Merged → Merged
  unfolding to_signal
  merge_new narrowed st m = record m {
    index = insert st.short_id (length m.out) m.index;
    out = m.out ++ to_signal narrowed st ∷ [];
  }

  -- The body of the loop over the stories of a feed.
  unfoldable pub merge_story : Bool → Story → Merged → Merged
  unfolding merge_new upgrade
  merge_story narrowed st m = if st.short_id =ᵗ [] then m else elim (lookup st.short_id m.index) [
    | some i ↦ record m { out = upgrade i narrowed m.out }
    | none ↦ merge_new narrowed st m
  ]

  unfoldable pub merge_stories : Bool → List Story → Merged → Merged
  unfolding merge_story
  merge_stories narrowed [] m = m
  merge_stories narrowed (st ∷ sts) m = merge_stories narrowed sts (merge_story narrowed st m)

  -- A feed that fails is passed over; the first error is kept.
  unfoldable pub merge_feed : Feed → Result (List Story) → Merged → Merged
  unfolding merge_stories
  merge_feed f (ok sts) m = merge_stories f.prenarrowed sts m
  merge_feed f (err e) m = record m {
    first_error = elim m.first_error [ none ↦ some e | some e' ↦ some e' ];
  }

  module _ {W : Type 0} (get : Text → W → Result (List Story) × W) where
    unfoldable pub fetch_feeds : List Feed → Merged → W → Merged × W
    unfolding merge_feed
    fetch_feeds [] m w = (m, w)
    fetch_feeds (f ∷ fs) m w = fetch_feeds fs (merge_feed f (get f.url w).0 m) (get f.url w).1

abbrev pub nothing_merged : Merged
nothing_merged = record { index = []; out = []; first_error = none }

-- Fetch: time.Now, then every feed.
unfoldable pub fetch_lobsters :
    {W : Type 0}
    → (Text → Result Time)
    → (W → Time × W)
    → (Text → W → Result (List Story) × W)
    → Lobsters
    → W
    → (List Signal × Option Error) × W
unfolding fetch_feeds feeds
fetch_lobsters parse_time clock get l w =
    let (now, w') = clock w in
    let (m, w'') = fetch_feeds parse_time now get (feeds l) nothing_merged w' in
    ((m.out, m.first_error), w'')
