-- ===== src/Sources/Reddit/Search.antt =====
-- reddit.go, search and Fetch.
pub mod Once
pub mod Keeps
use if_sos_beacon.Base.{
  Text, codes, ◌=ᵗ◌, join, ℕ, zero, suc, ◌==◌, Bool, true, false, ◌||◌, Option, none, some, List,
  [], ◌∷◌, ◌++◌, if◌then◌else◌,
}
use if_sos_beacon.Base.Int.{ℤ, pos}
use if_sos_beacon.Base.Maps.{Map, insert, holds}
use if_sos_beacon.Base.Errors.{Error, message, wrap, Result, ok, err}
use if_sos_beacon.Core.{Time, Duration, Signal}
use if_sos_beacon.Sources.Reddit.{Reddit, RedditPost, Reply, Api, access_token}

abbrev pub reddit_spacing : Duration
reddit_spacing = pos 700000000

-- A rejected token is dropped.
drop_rejected : ℕ → Reddit → Reddit
drop_rejected status r = if status == 401 then record r { token = []; token_till = pos 0 } else r

abbrev or_id : Text → Text → Text
or_id [] id = id
or_id (c ∷ s) id = c ∷ s

-- The variables of the loops in Fetch.
pub record Collected : Type 0 where
  pub seen : Map Bool
  pub out : List Signal
  pub first_error : Option Error

module _ {W : Type 0} (a : Api W) where
  search_error : Text → Text → Error
  search_error keyword rest =
      message (codes "reddit search " ++ a.quoted keyword ++ codes ": " ++ rest)

  searched : Text → Result (Reply (List RedditPost)) → Reddit → Result (List RedditPost) × Reddit
  unfolding drop_rejected search_error
  searched keyword (err e) r = (err e, r)
  searched keyword (ok reply) r =
      if reply.status == 200
      then elim reply.body [
        | ok posts ↦ (ok posts, r)
        | err e ↦ (err (wrap (codes "reddit search " ++ a.quoted keyword ++ codes ": decode") e), r)
      ]
      else (
        err (search_error keyword (codes "unexpected status " ++ a.decimal reply.status)),
        drop_rejected reply.status r,
      )

  unfoldable pub search : Text → Text → Text → Reddit → W → (Result (List RedditPost) × Reddit) × W
  unfolding searched
  search token multi keyword r w =
      let (reply, w') = a.listing token multi keyword w in (searched keyword reply r, w')

  module _ (now : Time) where
    signal_of_post : Text → RedditPost → Signal
    signal_of_post id p = record {
      source = codes "reddit";
      id = id;
      title = p.title;
      url = if p.is_self then [] else p.url;
      permalink = codes "https://www.reddit.com" ++ p.permalink;
      author = p.author;
      body = p.selftext;
      tags = (codes "r/" ++ p.subreddit) ∷ [];
      top_comments = [];
      score = p.score;
      num_comments = p.num_comments;
      created_at = a.unix p.created_utc;
      fetched_at = now;
      raw = [];
      prenarrowed = false;
    }

    unfoldable pub take_post : RedditPost → Collected → Collected
    unfolding signal_of_post
    take_post p m =
        let id = or_id p.name p.id in
        if id =ᵗ [] || holds m.seen id || p.stickied
        then m
        else record m { seen = insert id true m.seen; out = m.out ++ signal_of_post id p ∷ [] }

    unfoldable pub take_posts : List RedditPost → Collected → Collected
    unfolding take_post
    take_posts [] m = m
    take_posts (p ∷ ps) m = take_posts ps (take_post p m)

    -- A query that fails is passed over; the first error is kept.
    unfoldable pub take_answer : Result (List RedditPost) → Collected → Collected
    unfolding take_posts
    take_answer (ok ps) m = take_posts ps m
    take_answer (err e) m = record m {
      first_error = elim m.first_error [ none ↦ some e | some e' ↦ some e' ];
    }

    -- if i > 0, the wait that the context can end
    paced : ℕ → W → Option Error × W
    paced zero w = (none, w)
    paced (suc i) w = a.wait reddit_spacing w

    module _ (token multi : Text) where
      unfoldable pub search_keywords :
          ℕ → List Text → Collected → Reddit → W → ((List Signal × Option Error) × Reddit) × W
      unfolding take_answer paced search
      search_keywords i [] m r w = (((m.out, m.first_error), r), w)
      search_keywords i (kw ∷ kws) m r w =
          let skip = search_keywords (suc i) kws m r w in
          if kw =ᵗ []
          then skip
          else (let (stop, w1) = paced i w in
              elim stop [
                | some e ↦ (((m.out, some e), r), w1)
                | none ↦
                    let ((answer, r'), w2) = search token multi kw r w1 in
                    search_keywords (suc i) kws (take_answer answer m) r' w2
              ])

  with_token : Result Text → Reddit → W → ((List Signal × Option Error) × Reddit) × W
  unfolding search_keywords join
  with_token (err e) r w = ((([], some e), r), w)
  with_token (ok token) r w =
      let (now, w') = a.now w in
      search_keywords now token (join r.subreddits (codes "+")) 0 r.keywords
        (record { seen = []; out = []; first_error = none }) r w'

  unfoldable pub fetch_reddit : Reddit → W → ((List Signal × Option Error) × Reddit) × W
  unfolding with_token access_token
  fetch_reddit r w = elim r.subreddits [
    | [] ↦ ((([], some (message (codes "reddit: no subreddits configured"))), r), w)
    | s ∷ ss ↦ let ((t, r'), w') = access_token a r w in with_token t r' w'
  ]
