-- ===== src/Sources/Hn.antt =====
-- internal/sources/hn.go: one query for each keyword, and one signal for each story.
pub mod Merge
use if_sos_beacon.Base.{
  Text, codes, ◌=ᵗ◌, Bool, true, false, ◌||◌, Option, none, some, List, [], ◌∷◌, ◌++◌, not,
  if◌then◌else◌,
}
use if_sos_beacon.Base.Int.{ℤ, pos}
use if_sos_beacon.Base.Maps.{Map, insert, holds}
use if_sos_beacon.Base.Errors.{Error, wrap, Result, ok, err}
use if_sos_beacon.Core.{Time, Signal}

pub record Hit : Type 0 where
  pub object_id : Text
  pub title : Text
  pub url : Text
  pub author : Text
  pub story_text : Text
  pub points : ℤ
  pub num_comments : ℤ
  pub created_at_i : ℤ

pub record Hn : Type 0 where
  pub keywords : List Text
  pub endpoint : Text

unfoldable pub new_hn : List Text → Hn
new_hn keywords = record {
  keywords = keywords;
  endpoint = codes "https://hn.algolia.com/api/v1/search_by_date";
}

abbrev is_empty : List Text → Bool
is_empty [] = true
is_empty (k ∷ ks) = false

unfoldable pub prefilters_by_keyword : Hn → Bool
prefilters_by_keyword h = not (is_empty h.keywords)

abbrev pub hn_name : Text
hn_name = codes "hn"

-- `unix` is time.Unix(s, 0).UTC().
unfoldable pub signal_of_hit : (ℤ → Time) → Time → Hit → Signal
signal_of_hit unix now hit = record {
  source = hn_name;
  id = hit.object_id;
  title = hit.title;
  url = hit.url;
  permalink = codes "https://news.ycombinator.com/item?id=" ++ hit.object_id;
  author = hit.author;
  body = hit.story_text;
  tags = [];
  top_comments = [];
  score = hit.points;
  num_comments = hit.num_comments;
  created_at = unix hit.created_at_i;
  fetched_at = now;
  raw = [];
  prenarrowed = false;
}

-- The variables of the loops in Fetch.
pub record Found : Type 0 where
  pub seen : Map Bool
  pub out : List Signal

module _ (unix : ℤ → Time) (now : Time) where
  unfoldable pub take_hit : Hit → Found → Found
  unfolding signal_of_hit
  take_hit hit m = if hit.object_id =ᵗ [] || holds m.seen hit.object_id then m else record {
    seen = insert hit.object_id true m.seen;
    out = m.out ++ signal_of_hit unix now hit ∷ [];
  }

  unfoldable pub take_hits : List Hit → Found → Found
  unfolding take_hit
  take_hits [] m = m
  take_hits (hit ∷ hits) m = take_hits hits (take_hit hit m)

  -- `query` is the request for a keyword, its status check and its decoding. `quoted` is the verb %q.
  module _ {W : Type 0} (quoted : Text → Text) (query : Text → W → Result (List Hit) × W) where
    unfoldable pub fetch_keywords : List Text → Found → W → (List Signal × Option Error) × W
    unfolding take_hits
    fetch_keywords [] m w = ((m.out, none), w)
    fetch_keywords (kw ∷ kws) m w =
        let skip = fetch_keywords kws m w in
        if kw =ᵗ []
        then skip
        else (let (r, w') = query kw w in
            elim r [
              | err e ↦ ((m.out, some (wrap (codes "hn query " ++ quoted kw) e)), w')
              | ok hits ↦ fetch_keywords kws (take_hits hits m) w'
            ])

abbrev pub nothing_found : Found
nothing_found = record { seen = []; out = [] }

-- Fetch: time.Now, then every keyword.
unfoldable pub fetch_hn :
    {W : Type 0}
    → (ℤ → Time)
    → (W → Time × W)
    → (Text → Text)
    → (Text → W → Result (List Hit) × W)
    → Hn
    → W
    → (List Signal × Option Error) × W
unfolding fetch_keywords
fetch_hn unix clock quoted query h w =
    let (now, w') = clock w in fetch_keywords unix now quoted query h.keywords nothing_found w'
