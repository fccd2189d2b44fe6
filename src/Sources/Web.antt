-- ===== src/Sources/Web.antt =====
-- The requests that the sources make (internal/sources/hn.go, lobsters.go, reddit.go), and what they
-- make of the answers. Building and sending a request, and decoding JSON, are parameters.
pub mod Queries
pub mod Sent
pub mod Credentials
use if_sos_beacon.Base.{
  Text, codes, ℕ, Bool, Option, none, some, List, [], ◌∷◌, ◌++◌, ◌==◌, if◌then◌else◌,
}
use if_sos_beacon.Base.Maps.{Map, insert}
use if_sos_beacon.Base.Query.{utf8, encode}
use if_sos_beacon.Base.Base64.{base64}
use if_sos_beacon.Base.Errors.{Error, message, wrap, Result, ok, err}
use if_sos_beacon.Sources.Hn.{Hit, Hn}
use if_sos_beacon.Sources.Lobsters.{Story}
use if_sos_beacon.Sources.Reddit.{TokenResponse, RedditPost, Reply, Api}
use if_sos_beacon.Core.{Time, Duration}
use if_sos_beacon.Base.Floats.{Float64}

pub record Request : Type 0 where
  pub method : Text
  pub url : Text
  pub headers : List (Text × Text)
  pub body : Text

pub record Answer : Type 0 where
  pub status : ℕ
  pub body : Text

-- `build` is the error of http.NewRequestWithContext for a method and a URL; `decimal` is the verb %d.
pub record Web (W : Type 0) : Type 0 where
  pub build : Text → Text → Option Error
  pub send : Request → W → Result Answer × W
  pub decimal : ℕ → Text

abbrev pub user_agent : Text
user_agent = codes "sos-beacon/0.1 (+https://github.com/ImmersiveFusion/sos-beacon)"

-- The two headers of a request for JSON.
abbrev json_headers : List (Text × Text)
json_headers = (codes "User-Agent", user_agent) ∷ (codes "Accept", codes "application/json") ∷ []

unfoldable pub hn_values : Text → Map Text
unfolding insert
hn_values keyword =
    insert (codes "hitsPerPage") (codes "20")
      (insert (codes "query") keyword (insert (codes "tags") (codes "story") []))

unfoldable pub hn_request : Hn → Text → Request
unfolding hn_values encode
hn_request h keyword = record {
  method = codes "GET";
  url = h.endpoint ++ codes "?" ++ encode (hn_values keyword);
  headers = json_headers;
  body = [];
}

unfoldable pub lobsters_request : Text → Request
lobsters_request endpoint = record {
  method = codes "GET";
  url = endpoint;
  headers = json_headers;
  body = [];
}

abbrev pub reddit_token_url : Text
reddit_token_url = codes "https://www.reddit.com/api/v1/access_token"

abbrev pub reddit_api_base : Text
reddit_api_base = codes "https://oauth.reddit.com"

unfoldable pub token_request : Text → Text → Text → Request
unfolding encode insert base64 utf8
token_request token_url client_id client_secret = record {
  method = codes "POST";
  url = token_url;
  headers =
      (
        codes "Authorization",
        codes "Basic " ++ base64 (utf8 (client_id ++ codes ":" ++ client_secret)),
      )
      ∷ (codes "Content-Type", codes "application/x-www-form-urlencoded")
      ∷ (codes "User-Agent", user_agent)
      ∷ [];
  body = encode (insert (codes "grant_type") (codes "client_credentials") []);
}

unfoldable pub search_values : Text → Map Text
unfolding insert
search_values keyword = insert (codes "type") (codes "link") (
    insert (codes "raw_json") (codes "1") (
      insert (codes "restrict_sr") (codes "1") (
        insert (codes "limit") (codes "25")
          (insert (codes "sort") (codes "new") (insert (codes "q") keyword [])))))

unfoldable pub search_request : Text → Text → Text → Text → Request
unfolding search_values encode
search_request base token multi keyword = record {
  method = codes "GET";
  url = base ++ codes "/r/" ++ multi ++ codes "/search?" ++ encode (search_values keyword);
  headers = (codes "Authorization", codes "Bearer " ++ token) ∷ json_headers;
  body = [];
}

module _ {W : Type 0} (n : Web W) where
  -- NewRequestWithContext and Do.
  unfoldable pub round_trip : Request → W → Result Answer × W
  round_trip q w = elim (n.build q.method q.url) [ some e ↦ (err e, w) | none ↦ n.send q w ]

  unfoldable pub read_hits : (Text → Result (List Hit)) → Result Answer → Result (List Hit)
  read_hits decode (err e) = err e
  read_hits decode (ok a) =
      if a.status == 200
      then elim (decode a.body) [ err e ↦ err (wrap (codes "decode") e) | ok hits ↦ ok hits ]
      else err (message (codes "unexpected status " ++ n.decimal a.status))

  unfoldable pub query : (Text → Result (List Hit)) → Hn → Text → W → Result (List Hit) × W
  unfolding round_trip read_hits hn_request
  query decode h keyword w =
      let (a, w') = round_trip (hn_request h keyword) w in (read_hits decode a, w')

  unfoldable pub read_stories :
      (Text → Result (List Story)) → Text → Result Answer → Result (List Story)
  read_stories decode endpoint (err e) = err e
  read_stories decode endpoint (ok a) =
      if a.status == 200
      then elim (decode a.body) [
        | err e ↦ err (wrap (codes "lobsters " ++ endpoint ++ codes ": decode") e)
        | ok stories ↦ ok stories
      ]
      else err (
          message
            (codes "lobsters " ++ endpoint ++ codes ": unexpected status " ++ n.decimal a.status))

  unfoldable pub get : (Text → Result (List Story)) → Text → W → Result (List Story) × W
  unfolding round_trip read_stories lobsters_request
  get decode endpoint w =
      let (a, w') = round_trip (lobsters_request endpoint) w in (read_stories decode endpoint a, w')

  -- A status and what the body decodes to; the callers look at them.
  unfoldable pub reply_of : {B : Type 0} → (Text → Result B) → Result Answer → Result (Reply B)
  reply_of decode (err e) = err e
  reply_of decode (ok a) = ok (record { status = a.status; body = decode a.body })

  unfoldable pub exchange :
      (Text → Result TokenResponse) → Text → Text → Text → W → Result (Reply TokenResponse) × W
  unfolding round_trip reply_of token_request
  exchange decode token_url client_id client_secret w =
      let (a, w') = round_trip (token_request token_url client_id client_secret) w in
      (reply_of decode a, w')

  unfoldable pub listing :
      (Text → Result (List RedditPost))
      → Text
      → Text
      → Text
      → Text
      → W
      → Result (Reply (List RedditPost)) × W
  unfolding round_trip reply_of search_request
  listing decode base token multi keyword w =
      let (a, w') = round_trip (search_request base token multi keyword) w in
      (reply_of decode a, w')

  -- The API that Fetch has, with the clock, the wait and the verbs of the program.
  unfoldable pub reddit_api :
      (W → Time × W)
      → (Duration → W → Option Error × W)
      → (Text → Text)
      → (Float64 → Time)
      → (Text → Result TokenResponse)
      → (Text → Result (List RedditPost))
      → Api W
  unfolding exchange listing
  reddit_api now wait quoted unix decode_token decode_listing = record {
    now = now;
    wait = wait;
    exchange = exchange decode_token reddit_token_url;
    listing = listing decode_listing reddit_api_base;
    decimal = n.decimal;
    quoted = quoted;
    unix = unix;
  }

-- lobstersUser.UnmarshalJSON: the JSON is a string, or else an object with a name.
unfoldable pub unmarshal_user : (Text → Result Text) → (Text → Result Text) → Text → Result Text
unmarshal_user as_string as_object b = elim (as_string b) [
  | ok s ↦ ok s
  | err e ↦ elim (as_object b) [ ok name ↦ ok name | err e' ↦ err e' ]
]
