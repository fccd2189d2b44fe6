-- ===== src/Sources/Web/Sent.antt =====
-- Which requests a fetch from Hacker News and one from Lobsters make.
use if_sos_beacon.Base.{
  Text, All, codes, ◌=ᵗ◌, ◌≡◌, refl, sym, ap, ◌∙◌, not, none, some, List, [], ◌∷◌, ◌++◌, map, keep,
  append_assoc, append-nil, Option-cases, Bool-cases, inl, inr, ◌⊎◌, arith,
}
use if_sos_beacon.Base.Int.{ℤ}
use if_sos_beacon.Base.Errors.{Error, Result, ok, err, Result-cases}
use if_sos_beacon.Core.{Time}
use if_sos_beacon.Sources.Hn.{Hit, Hn, Found, take_hits, fetch_keywords, fetch_hn, nothing_found}
use if_sos_beacon.Sources.Lobsters.{
  Lobsters, Story, Feed, Merged, feeds, merge_feed, fetch_feeds, fetch_lobsters, nothing_merged,
}
use if_sos_beacon.Sources.Web.{
  Request, Answer, Web, round_trip, read_hits, query, hn_request, get, lobsters_request,
}

-- The world, and the requests that were sent.
abbrev pub Sending : Type 0 → Type 0
Sending W = W × List Request

-- The requests for some feeds.
abbrev pub feed_requests : List Feed → List Request
feed_requests = map (λ f. lobsters_request f.url)

-- The requests for the keywords that are not empty.
abbrev pub keyword_requests : Hn → List Text → List Request
keyword_requests h kws = map (hn_request h) (keep (λ kw. not (kw =ᵗ [])) kws)

module _ {W : Type 0} where
  abbrev pub recorded_web : Web W → Web (Sending W)
  recorded_web n = record {
    build = n.build;
    send = λ q o. let (a, w) = n.send q o.0 in (a, (w, o.1 ++ q ∷ []));
    decimal = n.decimal;
  }

  -- A request with an answer was sent.
  round_trip_sent :
      (n : Web W) (q : Request) (o : Sending W) (a : Answer)
      → (round_trip (recorded_web n) q o).0 ≡ ok a
      → (round_trip (recorded_web n) q o).1.1 ≡ o.1 ++ q ∷ []
  unfolding round_trip
  round_trip_sent n q o a e = elim (Option-cases (n.build q.method q.url)) [
    | inl free ↦ rw (free, round_trip) refl
    | inr (x, bad) ↦ absurd (ground (arith, rw (bad, round_trip) at e))
  ]

  -- One whose building succeeds is sent, whatever the answer.
  round_trip_free :
      (n : Web W) (q : Request) (o : Sending W)
      → n.build q.method q.url ≡ none
      → (round_trip (recorded_web n) q o).1.1 ≡ o.1 ++ q ∷ []
  unfolding round_trip
  round_trip_free n q o free = rw (free, round_trip) refl

  module _ (n : Web W) (unix : ℤ → Time) (now : Time) (quoted : Text → Text)
      (decode : Text → Result (List Hit)) (h : Hn) where
    abbrev asked : Text → Sending W → Result (List Hit) × Sending W
    asked = query (recorded_web n) decode h

    read_hits_ok :
        (r : Result Answer) (hits : List Hit)
        → read_hits (recorded_web n) decode r ≡ ok hits
        → (a : Answer) × (r ≡ ok a)
    unfolding read_hits
    read_hits_ok (err x) hits e = absurd (ground arith)
    read_hits_ok (ok a) hits e = (a, refl)

    -- A query that gives hits was sent.
    query_sent :
        (kw : Text) (o : Sending W) (hits : List Hit)
        → (asked kw o).0 ≡ ok hits
        → (asked kw o).1.1 ≡ o.1 ++ hn_request h kw ∷ []
    unfolding query
    query_sent kw o hits e =
        let (a, answered) =
          read_hits_ok (round_trip (recorded_web n) (hn_request h kw) o).0 hits e in
        round_trip_sent n (hn_request h kw) o a answered

    fetch_keywords_sent :
        (kws : List Text) (m : Found) (o : Sending W)
        → (fetch_keywords unix now quoted asked kws m o).0.1 ≡ none
        → (fetch_keywords unix now quoted asked kws m o).1.1 ≡ o.1 ++ keyword_requests h kws
    unfolding fetch_keywords keep
    fetch_keywords_sent [] m o e = sym (append-nil o.1)
    fetch_keywords_sent (kw ∷ kws) m o e = elim (Bool-cases (kw =ᵗ [])) [
      | inl blank ↦ rw blank (fetch_keywords_sent kws m o (rw blank at e))
      | inr named ↦ elim (Result-cases (asked kw o).0) [
        | inr (x, failed) ↦ absurd (ground (arith, rw (named, failed) at e))
        | inl (hits, got) ↦
            let rest =
              fetch_keywords_sent kws (take_hits unix now hits m) (asked kw o).1
                (rw (named, got) at e) in
            rw (named, got)
              (rest
                ∙ ap (λ log. log ++ keyword_requests h kws) (query_sent kw o hits got)
                ∙ append_assoc o.1 (hn_request h kw ∷ []) (keyword_requests h kws))
      ]
    ]

  module _ (n : Web W) (parse_time : Text → Result Time) (now : Time)
      (decode : Text → Result (List Story)) where
    fetch_feeds_sent :
        (fs : List Feed) (m : Merged) (o : Sending W)
        → All (λ f. n.build (codes "GET") f.url ≡ none) fs
        → (fetch_feeds parse_time now (get (recorded_web n) decode) fs m o).1.1
          ≡ o.1 ++ feed_requests fs
    unfolding fetch_feeds get lobsters_request
    fetch_feeds_sent [] m o free = sym (append-nil o.1)
    fetch_feeds_sent (f ∷ fs) m o (free, frees) =
        let q = lobsters_request f.url in
        fetch_feeds_sent fs (merge_feed parse_time now f (get (recorded_web n) decode f.url o).0 m)
          (get (recorded_web n) decode f.url o).1 frees
        ∙ ap (λ log. log ++ feed_requests fs) (round_trip_free n q o free)
        ∙ append_assoc o.1 (q ∷ []) (feed_requests fs)

  -- A fetch from Hacker News reports an error or has sent one request for each keyword that is not empty,
  -- in their order, and no other; a fetch from Lobsters has sent one for each feed, in their order, and
  -- no other, whatever the answers were. The URLs of the feeds are taken to be ones that
  -- http.NewRequestWithContext accepts, and no request to have been sent before.
  pub fetch_requests_sent :
      (n : Web W) (unix : ℤ → Time) (parse_time : Text → Result Time)
      (clock : Sending W → Time × Sending W) (quoted : Text → Text)
      (hits : Text → Result (List Hit)) (stories : Text → Result (List Story)) (h : Hn)
      (l : Lobsters) (o : Sending W)
      → (clock o).1.1 ≡ []
      → All (λ f. n.build (codes "GET") f.url ≡ none) (feeds l)
      → (((e : Error) × ((fetch_hn unix clock quoted (query (recorded_web n) hits h) h o).0.1
              ≡ some e))
          ⊎ ((fetch_hn unix clock quoted (query (recorded_web n) hits h) h o).1.1
              ≡ keyword_requests h h.keywords))
        × ((fetch_lobsters parse_time clock (get (recorded_web n) stories) l o).1.1
            ≡ feed_requests (feeds l))
  unfolding fetch_hn fetch_lobsters
  fetch_requests_sent n unix parse_time clock quoted hits stories h l o fresh free = (
    elim (Option-cases (fetch_hn unix clock quoted (query (recorded_web n) hits h) h o).0.1) [
      | inr failed ↦ inl failed
      | inl e ↦ inr (
          fetch_keywords_sent n unix (clock o).0 quoted hits h h.keywords nothing_found (clock o).1
            e
          ∙ ap (λ log. log ++ keyword_requests h h.keywords) fresh)
    ],
    fetch_feeds_sent n parse_time (clock o).0 stories (feeds l) nothing_merged (clock o).1 free
        ∙ ap (λ log. log ++ feed_requests (feeds l)) fresh,
  )
