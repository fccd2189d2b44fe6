-- ===== src/Tests/SourcesTests.antt =====
-- Two Lobsters feeds that list one story, a Hacker News query that fails, a list of tags, and a Reddit
-- fetch.
use if_sos_beacon.Base.{
  Text, codes, ◌=ᵗ◌, ◌≤◌, ◌⊎◌, ◌≡◌, refl, true, false, ◌&&◌, List, [], ◌∷◌, length, any, bit, arith,
}
use if_sos_beacon.Base.Int.{ℤ, pos}
use if_sos_beacon.Base.Maps.{lookup, insert}
use if_sos_beacon.Base.Errors.{Result, message, ok, err}
use if_sos_beacon.Core.{Time}
use if_sos_beacon.Sources.Tally.{times}
use if_sos_beacon.Sources.Lobsters.{
  Lobsters, Story, fetch_lobsters, feeds, normalize_tags, max_tags,
}
use if_sos_beacon.Sources.Lobsters.Merge.{fetch_lobsters_merge, narrowed, feed_tells, answers}
use if_sos_beacon.Sources.Lobsters.Tags.{normalize_tags_lem, copies, has, asked_for}
use if_sos_beacon.Sources.Hn.{Hit, Hn, fetch_hn}
use if_sos_beacon.Sources.Hn.Merge.{fetch_hn_merge, reply_lists, replies, is_error, failed}
use if_sos_beacon.Base.Floats.{half}
use if_sos_beacon.Base.{none, if◌then◌else◌}
use if_sos_beacon.Sources.Reddit.{Reddit, RedditPost, Api, access_token}
use if_sos_beacon.Sources.Reddit.Token.{ApiLaws, Live, access_token-Live}
use if_sos_beacon.Sources.Reddit.Search.{fetch_reddit}
use if_sos_beacon.Sources.Reddit.Search.Once.{fetch_reddit-once}
use if_sos_beacon.Tests.Fixtures.{ascii, Outside}

abbrev story : Story
story = record {
  short_id = codes "abc";
  created_at = [];
  title = codes "Tracing";
  url = [];
  score = pos 1;
  comment_count = pos 0;
  description = [];
  comments_url = [];
  tags = [];
  submitter = codes "bob";
}

abbrev lobsters : Lobsters
lobsters = record { base = []; tags = codes "devops" ∷ [] }

abbrev epoch : Text → Result Time
epoch s = ok (pos 1)

abbrev clock : Outside → Time × Outside
clock w = (pos 300, w)

abbrev one_story : Text → Outside → Result (List Story) × Outside
one_story url w = (ok (story ∷ []), w)

fetch_lobsters_merge_example :
    (times (codes "abc") (fetch_lobsters epoch clock one_story lobsters tt).0.0
      ≡ bit (any (feed_tells (codes "abc")) (answers one_story (feeds lobsters) tt)))
    × (narrowed (codes "abc") (fetch_lobsters epoch clock one_story lobsters tt).0.0
        ≡ any
            (λ a. feed_tells (codes "abc") a && a.0.prenarrowed)
            (answers one_story (feeds lobsters) tt))
fetch_lobsters_merge_example =
    fetch_lobsters_merge epoch clock one_story lobsters tt (codes "abc") (ground arith)

abbrev operator_tags : List Text
operator_tags = codes " DevOps" ∷ codes "devops" ∷ [] ∷ codes "linux" ∷ []

two_tags : length (normalize_tags ascii operator_tags) ≡ 2
unfolding normalize_tags ◌=ᵗ◌ lookup insert
two_tags = refl

normalize_tags_lem_example :
    (length (normalize_tags ascii operator_tags) ≤ max_tags)
    × (copies (codes "devops") (normalize_tags ascii operator_tags) ≤ 1)
    × (copies [] (normalize_tags ascii operator_tags) ≡ 0)
    × ((length (normalize_tags ascii operator_tags) ≡ max_tags)
        ⊎ (has (codes "devops") (normalize_tags ascii operator_tags)
            ≡ asked_for ascii (codes "devops") operator_tags))
normalize_tags_lem_example = normalize_tags_lem ascii operator_tags (codes "devops") (ground arith)

abbrev hit : Hit
hit = record {
  object_id = codes "7";
  title = codes "Datadog";
  url = [];
  author = [];
  story_text = [];
  points = pos 3;
  num_comments = pos 0;
  created_at_i = pos 1;
}

abbrev hn_fetcher : Hn
hn_fetcher = record {
  keywords = codes "apm" ∷ [] ∷ codes "otel" ∷ codes "down" ∷ codes "late" ∷ [];
  endpoint = [];
}

-- It answers two keywords, and fails at the next.
abbrev query : Text → Outside → Result (List Hit) × Outside
query kw w = elim (kw =ᵗ codes "down") [
  | true ↦ (err (message (codes "status 503")), w)
  | false ↦ (ok (hit ∷ hit ∷ []), w)
]

abbrev seconds : ℤ → Time
seconds s = s

fetch_hn_merge_example :
    (times (codes "7") (fetch_hn seconds clock (λ s. s) query hn_fetcher tt).0.0
      ≡ bit (any (reply_lists (codes "7")) (replies query hn_fetcher.keywords tt)))
    × (is_error (fetch_hn seconds clock (λ s. s) query hn_fetcher tt).0.1
        ≡ any failed (replies query hn_fetcher.keywords tt))
fetch_hn_merge_example =
    fetch_hn_merge seconds clock (λ s. s) query hn_fetcher tt (codes "7") (ground arith)

abbrev reddit : Reddit
reddit = record {
  client_id = codes "id";
  client_secret = codes "key";
  subreddits = codes "devops" ∷ [];
  keywords = codes "apm" ∷ codes "otel" ∷ [];
  token = [];
  token_till = pos 0;
}

abbrev reddit_post : RedditPost
reddit_post = record {
  id = codes "9";
  name = codes "t3_9";
  title = codes "Datadog";
  selftext = [];
  url = [];
  permalink = [];
  author = [];
  subreddit = codes "devops";
  score = pos 1;
  num_comments = pos 0;
  created_utc = half;
  is_self = true;
  over_18 = false;
  stickied = false;
}

-- The world is the time.
abbrev api : Api ℤ
api = record {
  now = λ t. (t, t);
  wait = λ d t. (none, t);
  exchange = λ id key t. (
    ok (record {
      status = 200;
      body = ok (record { access_token = codes "abc"; expires_in = pos 3600; token_type = [] });
    }),
    t,
  );
  listing = λ token multi kw t. (ok (record { status = 200; body = ok (reddit_post ∷ []) }), t);
  decimal = λ n. [];
  quoted = λ s. s;
  unix = λ x. pos 1;
}

api-ApiLaws : ApiLaws api (λ t. t)
api-ApiLaws = record {
  forward = λ t. omega arith;
  read = λ t. omega arith;
  exchanging = λ id key t. omega arith;
}

token_given : (access_token api reddit (pos 5)).0.0 ≡ ok (codes "abc")
unfolding access_token ◌=ᵗ◌
token_given = refl

access_token-Live_example : Live (codes "abc") (access_token api reddit (pos 5)).0.1 (pos 5)
access_token-Live_example =
    access_token-Live api (λ t. t) api-ApiLaws reddit (pos 5) (codes "abc") token_given

fetch_reddit-once_example :
    times (codes "t3_9") (fetch_reddit api reddit (pos 5)).0.0.0
    ≤ (if codes "t3_9" =ᵗ [] then 0 else 1)
fetch_reddit-once_example = fetch_reddit-once api reddit (pos 5) (codes "t3_9")
