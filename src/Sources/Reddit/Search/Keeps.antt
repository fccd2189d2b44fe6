-- ===== src/Sources/Reddit/Search/Keeps.antt =====
-- What every call of the API keeps, a fetch from Reddit keeps.
use if_sos_beacon.Base.{
  Text, ◌=ᵗ◌, ◌≡◌, refl, ℕ, zero, suc, ◌==◌, ◌||◌, Option-cases, List, [], ◌∷◌, All, Bool-cases,
  inl, inr,
}
use if_sos_beacon.Base.Int.{ltb_ℤ}
use if_sos_beacon.Base.Errors.{Result, ok, err}
use if_sos_beacon.Core.{Time, Duration}
use if_sos_beacon.Sources.Reddit.{
  Reddit, TokenResponse, Reply, Api, store_token, read_token, exchanged, new_token, access_token,
}
use if_sos_beacon.Sources.Reddit.Search.Once.{List-cases}
use if_sos_beacon.Sources.Reddit.Search.{
  Collected, take_answer, paced, search, search_keywords, with_token, fetch_reddit,
}

module _ {W : Type 0} (I : W → Type 0) (a : Api W) (r : Reddit) where
  -- The calls that a fetch of this beacon makes keep the predicate.
  pub record ApiKeeps : Type 0 where
    pub on_now : (w : W) → I w → I (a.now w).1
    pub on_wait : (d : Duration) (w : W) → I w → I (a.wait d w).1
    pub on_exchange : (w : W) → I w → I (a.exchange r.client_id r.client_secret w).1
    pub on_listing :
        All (λ kw. (token multi : Text) (w : W) → I w → I (a.listing token multi kw w).1) r.keywords

  abbrev ListingKeeps : Text → Type 0
  ListingKeeps kw = (token multi : Text) (w : W) → I w → I (a.listing token multi kw w).1

  -- Of the token's step: the predicate, and that the beacon's keywords are the same.
  abbrev TokenKept : (Result Text × Reddit) × W → Type 0
  TokenKept x = I x.1 × (x.0.1.keywords ≡ r.keywords)

  module _ (k : ApiKeeps) where
    read_token-TokenKept : (x : Result TokenResponse) (w : W) → I w → TokenKept (read_token a x r w)
    unfolding read_token store_token
    read_token-TokenKept (err e) w h = (h, refl)
    read_token-TokenKept (ok tr) w h = elim (Bool-cases (tr.access_token =ᵗ [])) [
      | inl e ↦ rw e (h, refl)
      | inr n ↦ rw n (k.on_now w h, refl)
    ]

    exchanged-TokenKept :
        (x : Result (Reply TokenResponse) × W) → I x.1 → TokenKept (exchanged a x r)
    unfolding exchanged
    exchanged-TokenKept (err e, w) h = (h, refl)
    exchanged-TokenKept (ok reply, w) h = elim (Bool-cases (reply.status == 200)) [
      | inl e ↦ rw e (read_token-TokenKept reply.body w h)
      | inr n ↦ rw n (h, refl)
    ]

    new_token-TokenKept : (w : W) → I w → TokenKept (new_token a r w)
    unfolding new_token
    new_token-TokenKept w h = elim (Bool-cases (r.client_id =ᵗ [] || r.client_secret =ᵗ [])) [
      | inl e ↦ rw e (h, refl)
      | inr n ↦
          rw n (exchanged-TokenKept (a.exchange r.client_id r.client_secret w) (k.on_exchange w h))
    ]

    access_token-TokenKept : (w : W) → I w → TokenKept (access_token a r w)
    unfolding access_token
    access_token-TokenKept w h = elim (Bool-cases (r.token =ᵗ [])) [
      | inl e ↦ rw e (new_token-TokenKept w h)
      | inr n ↦ elim (Bool-cases (ltb_ℤ (a.now w).0 r.token_till)) [
        | inl live ↦ rw (n, live) (k.on_now w h, refl)
        | inr old ↦ rw (n, old) (new_token-TokenKept (a.now w).1 (k.on_now w h))
      ]
    ]

    paced-keeps : (now : Time) (i : ℕ) (w : W) → I w → I (paced a now i w).1
    unfolding paced
    paced-keeps now zero w h = h
    paced-keeps now (suc i) w h = k.on_wait _ w h

    search_keywords-keeps :
        (now : Time) (token multi : Text) (i : ℕ) (kws : List Text) (m : Collected) (s : Reddit)
        (w : W)
        → All ListingKeeps kws
        → I w
        → I (search_keywords a now token multi i kws m s w).1
    unfolding search_keywords search
    search_keywords-keeps now token multi i [] m s w hk h = h
    search_keywords-keeps now token multi i (kw ∷ kws) m s w (hk, hks) h =
        let w1 = (paced a now i w).1 in
        let h1 = paced-keeps now i w h in
        let found = search a token multi kw s w1 in
        elim (Bool-cases (kw =ᵗ [])) [
          | inl blank ↦ rw blank (search_keywords-keeps now token multi (suc i) kws m s w hks h)
          | inr named ↦ elim (Option-cases (paced a now i w).0) [
            | inr (x, stop) ↦ rw (named, stop) h1
            | inl go ↦
                rw (named, go)
                  (search_keywords-keeps now token multi (suc i) kws (take_answer a now found.0.0 m)
                    found.0.1 found.1 hks (hk token multi w1 h1))
          ]
        ]

    with_token-keeps :
        (x : Result Text) (s : Reddit) (w : W)
        → All ListingKeeps s.keywords
        → I w
        → I (with_token a x s w).1
    unfolding with_token
    with_token-keeps (err e) s w hk h = h
    with_token-keeps (ok token) s w hk h =
        search_keywords-keeps (a.now w).0 token _ 0 s.keywords _ s (a.now w).1 hk (k.on_now w h)

    pub fetch_reddit-keeps : (w : W) → I w → I (fetch_reddit a r w).1
    unfolding fetch_reddit
    fetch_reddit-keeps w h =
        let (h', same) = access_token-TokenKept w h in
        let (x, w') = access_token a r w in
        let kept = with_token-keeps x.0 x.1 w' (rw same k.on_listing) h' in
        elim (List-cases r.subreddits) [
          | inl none_set ↦ rw (none_set, fetch_reddit) h
          | inr (s, ss, some_set) ↦ rw (some_set, fetch_reddit) kept
        ]
