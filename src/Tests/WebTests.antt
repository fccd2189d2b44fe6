-- ===== src/Tests/WebTests.antt =====
-- Requests of the sources for keywords that a query must escape.
use if_sos_beacon.Base.{
  ◌∷◌, Text, List, map, some, none, ◌⊎◌, codes, ◌≡◌, ◌=ᵗ◌, refl, arith, ◌++◌, [],
}
use if_sos_beacon.Base.{Option}
use if_sos_beacon.Base.Floats.{Float64}
use if_sos_beacon.Core.{Duration}
use if_sos_beacon.Sources.Reddit.{Reddit, RedditPost, TokenResponse, new_reddit}
use if_sos_beacon.Tests.Fixtures.{ascii}
use if_sos_beacon.Base.Maps.{insert}
use if_sos_beacon.Base.Sort.{sort_by, place, text_leb}
use if_sos_beacon.Base.Query.{query_escape, utf8, encode}
use if_sos_beacon.Base.Base64.{base64}
use if_sos_beacon.Base.Int.{ℤ, pos}
use if_sos_beacon.Base.Errors.{Error, message, Result, ok, err}
use if_sos_beacon.Core.{Time}
use if_sos_beacon.Sources.Lobsters.{Lobsters, Story, feeds, fetch_lobsters}
use if_sos_beacon.Sources.Web.Sent.{
  Sending, recorded_web, keyword_requests, feed_requests, fetch_requests_sent,
}
use if_sos_beacon.Tests.Fixtures.{Outside}
use if_sos_beacon.Sources.Hn.{Hn, Hit, new_hn, fetch_hn}
use if_sos_beacon.Sources.Web.{Web, query, get, hn_request, hn_values, search_request}
use if_sos_beacon.Sources.Web.Queries.{
  AsksFor, hn_parameters, search_parameters, keyword_requests_read,
}

keyword_requests_read_example :
    AsksFor
      (hn_request (new_hn []) (codes "a&tags=b")).url
      ((new_hn []).endpoint ++ codes "?")
      (hn_parameters (codes "a&tags=b"))
    × AsksFor
        (search_request
          (codes "https://oauth.reddit.com")
          (codes "t")
          (codes "devops")
          (codes "a&tags=b")).url
        (codes "https://oauth.reddit.com" ++ codes "/r/" ++ codes "devops" ++ codes "/search?")
        (search_parameters (codes "a&tags=b"))
keyword_requests_read_example =
    keyword_requests_read (new_hn []) (codes "https://oauth.reddit.com") (codes "t")
      (codes "devops") (codes "a&tags=b") (omega arith)

escaped : query_escape (codes "a&b é~") ≡ codes "a%26b+%C3%A9~"
unfolding query_escape
escaped = refl

basic : base64 (utf8 (codes "id:key")) ≡ codes "aWQ6a2V5"
unfolding base64 utf8
basic = refl

hn_url :
    (hn_request (new_hn []) (codes "c++")).url
    ≡ codes "https://hn.algolia.com/api/v1/search_by_date?hitsPerPage=20&query=c%2B%2B&tags=story"
unfolding hn_request hn_values insert ◌=ᵗ◌ sort_by place text_leb encode new_hn
hn_url = refl

abbrev no_hits : Text → Result (List Hit)
no_hits b = ok []

abbrev no_stories : Text → Result (List Story)
no_stories b = err (message (codes "unexpected end of JSON input"))

abbrev unix_seconds : ℤ → Time
unix_seconds t = t

abbrev no_time : Text → Result Time
no_time t = ok (pos 0)

-- Every request is answered with status 200.
abbrev web : Web Outside
web = record {
  build = λ m u. none;
  send = λ q w. (ok (record { status = 200; body = [] }), w);
  decimal = λ d. [];
}

abbrev clock : Sending Outside → Time × Sending Outside
clock o = (pos 7, o)

abbrev watcher : Hn
watcher = new_hn (codes "datadog" ∷ [] ∷ codes "c++" ∷ [])

abbrev feeder : Lobsters
feeder = record { base = codes "https://lobste.rs"; tags = codes "devops" ∷ [] }

fetch_requests_sent_example :
    (((e : Error) × ((fetch_hn unix_seconds clock
            (λ t. t)
            (query (recorded_web web) no_hits watcher)
            watcher
            (tt, [])).0.1
          ≡ some e))
      ⊎ ((fetch_hn unix_seconds clock
            (λ t. t)
            (query (recorded_web web) no_hits watcher)
            watcher
            (tt, [])).1.1
          ≡ keyword_requests watcher watcher.keywords))
    × ((fetch_lobsters no_time clock (get (recorded_web web) no_stories) feeder (tt, [])).1.1
        ≡ feed_requests (feeds feeder))
unfolding feeds
fetch_requests_sent_example =
    fetch_requests_sent web unix_seconds no_time clock (λ t. t) no_hits no_stories watcher feeder
      (tt, []) refl (refl, (refl, tt))

sent_urls :
    map
      (λ q. q.url)
      (fetch_lobsters no_time clock (get (recorded_web web) no_stories) feeder (tt, [])).1.1
    ≡ codes "https://lobste.rs/newest.json" ∷ codes "https://lobste.rs/t/devops.json" ∷ []
unfolding fetch_lobsters get feeds
sent_urls = refl

abbrev redditor : Reddit
redditor =
    new_reddit ascii (codes "id") (codes "key") (codes "r/devops" ∷ []) (codes "datadog" ∷ [])

abbrev a_token : Text → Result TokenResponse
a_token b =
    ok (record { access_token = codes "t"; expires_in = pos 3600; token_type = codes "bearer" })

abbrev no_posts : Text → Result (List RedditPost)
no_posts b = ok []

abbrev epoch : Float64 → Time
epoch x = pos 0

abbrev seven : Outside → Time × Outside
seven w = (pos 7, w)

abbrev no_wait : Duration → Outside → Option Error × Outside
no_wait d w = (none, w)
