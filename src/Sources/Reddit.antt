-- ===== src/Sources/Reddit.antt =====
-- internal/sources/reddit.go: the subreddits and the token; Search has the loop over the keywords. The
-- mutex is held throughout an exchange, so accessToken is one step.
pub mod Token
pub mod Search
use if_sos_beacon.Base.{
  Text, codes, ◌=ᵗ◌, join, has_prefix, ℕ, ◌+◌, ◌*◌, ◌==◌, Bool, true, false, not, ◌&&◌, ◌||◌,
  Option, none, some, List, [], ◌∷◌, ◌++◌, if◌then◌else◌,
}
use if_sos_beacon.Base.Int.{ℤ, pos, negsuc, ◌+ℤ◌, ◌-ℤ◌, ltb_ℤ, wrap64}
use if_sos_beacon.Base.Maps.{Map, insert, holds}
use if_sos_beacon.Base.Floats.{Float64}
use if_sos_beacon.Base.Errors.{Error, message, wrap, Result, ok, err}
use if_sos_beacon.Base.Go.{Platform, to_lower, trim, trim_space}
use if_sos_beacon.Core.{Time, Duration, Signal}

pub record Reddit : Type 0 where
  pub client_id : Text
  pub client_secret : Text
  pub subreddits : List Text
  pub keywords : List Text
  pub token : Text
  pub token_till : Time

abbrev drop_one : Text → Text
drop_one [] = []
drop_one (c ∷ s) = s

abbrev drop_two : Text → Text
drop_two [] = []
drop_two (c ∷ s) = drop_one s

-- The four trims of normalizeSubreddits.
bare_name : Text → Text
unfolding has_prefix trim_space trim
bare_name s =
    let s1 = trim_space s in
    let s2 = if has_prefix s1 (codes "/") then drop_one s1 else s1 in
    let s3 = if has_prefix s2 (codes "r/") then drop_two s2 else s2 in trim (λ c. c == b'/') s3

subreddits_from : Platform → Map Bool → List Text → List Text
unfolding bare_name to_lower
subreddits_from p seen [] = []
subreddits_from p seen (s ∷ ss) =
    let name = bare_name s in
    let lowered = to_lower p name in
    let skip = subreddits_from p seen ss in
    let rest = subreddits_from p (insert lowered true seen) ss in
    if name =ᵗ [] || holds seen lowered then skip else name ∷ rest

unfoldable pub normalize_subreddits : Platform → List Text → List Text
unfolding subreddits_from
normalize_subreddits p ss = subreddits_from p [] ss

unfoldable pub new_reddit : Platform → Text → Text → List Text → List Text → Reddit
unfolding normalize_subreddits
new_reddit p client_id client_secret subreddits keywords = record {
  client_id = client_id;
  client_secret = client_secret;
  subreddits = normalize_subreddits p subreddits;
  keywords = keywords;
  token = [];
  token_till = pos 0;
}

pub record TokenResponse : Type 0 where
  pub access_token : Text
  pub expires_in : ℤ
  pub token_type : Text

pub record RedditPost : Type 0 where
  pub id : Text
  pub name : Text
  pub title : Text
  pub selftext : Text
  pub url : Text
  pub permalink : Text
  pub author : Text
  pub subreddit : Text
  pub score : ℤ
  pub num_comments : ℤ
  pub created_utc : Float64
  pub is_self : Bool
  pub over_18 : Bool
  pub stickied : Bool

-- A status, and what the JSON library makes of the body.
pub record Reply (B : Type 0) : Type 0 where
  pub status : ℕ
  pub body : Result B

-- The clock, the wait that the context can end, the two requests, the verbs %d and %q, and the time of
-- a number of seconds.
pub record Api (W : Type 0) : Type 0 where
  pub now : W → Time × W
  pub wait : Duration → W → Option Error × W
  pub exchange : Text → Text → W → Result (Reply TokenResponse) × W
  pub listing : Text → Text → Text → W → Result (Reply (List RedditPost)) × W
  pub decimal : ℕ → Text
  pub quoted : Text → Text
  pub unix : Float64 → Time

abbrev pub second : ℕ
second = 1000000000

abbrev pub token_skew : Duration
token_skew = pos (60 * second)

-- time.Duration(seconds) * time.Second
duration_of_seconds : ℤ → Duration
duration_of_seconds (pos n) = wrap64 (pos (n * second))
duration_of_seconds (negsuc n) = wrap64 (pos 0 -ℤ pos ((n + 1) * second))

-- The ttl, made longer if it does not exceed the skew.
unfoldable pub lifetime : ℤ → Duration
unfolding duration_of_seconds
lifetime expires_in =
    let ttl = duration_of_seconds expires_in in
    if ltb_ℤ token_skew ttl then ttl else pos (2 * (60 * second))

module _ {W : Type 0} (a : Api W) where
  store_token : TokenResponse → Reddit → W → (Result Text × Reddit) × W
  unfolding lifetime
  store_token tr r w =
      let (now, w') = a.now w in
      let till = now +ℤ wrap64 (lifetime tr.expires_in -ℤ token_skew) in
      ((ok tr.access_token, record r { token = tr.access_token; token_till = till }), w')

  read_token : Result TokenResponse → Reddit → W → (Result Text × Reddit) × W
  unfolding store_token
  read_token (err e) r w = ((err (wrap (codes "reddit token: decode") e), r), w)
  read_token (ok tr) r w =
      if tr.access_token =ᵗ []
      then ((err (message (codes "reddit token: empty access_token")), r), w)
      else store_token tr r w

  exchanged : Result (Reply TokenResponse) × W → Reddit → (Result Text × Reddit) × W
  unfolding read_token
  exchanged (err e, w) r = ((err e, r), w)
  exchanged (ok reply, w) r = if reply.status == 200 then read_token reply.body r w else (
    (err (message (codes "reddit token: unexpected status " ++ a.decimal reply.status)), r),
    w,
  )

  -- Behind the cache.
  new_token : Reddit → W → (Result Text × Reddit) × W
  unfolding exchanged
  new_token r w =
      if r.client_id =ᵗ [] || r.client_secret =ᵗ []
      then ((err (message (codes "reddit: missing client id or secret")), r), w)
      else exchanged (a.exchange r.client_id r.client_secret w) r

  -- The clock is read only where a token is cached.
  unfoldable pub access_token : Reddit → W → (Result Text × Reddit) × W
  unfolding new_token
  access_token r w =
      if r.token =ᵗ []
      then new_token r w
      else if ltb_ℤ (a.now w).0 r.token_till
      then ((ok r.token, r), (a.now w).1)
      else new_token r (a.now w).1
