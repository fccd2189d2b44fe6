-- ===== src/Sources/Web/Queries.antt =====
-- What the servers of Hacker News and Reddit read from a search request.
use if_sos_beacon.Base.{Text, codes, ◌≡◌, ◌=ᵗ◌, List, [], ◌∷◌, ◌++◌, All, append_assoc, arith, map}
use if_sos_beacon.Base.Maps.{insert}
use if_sos_beacon.Base.Sort.{sort_by, place, text_leb}
use if_sos_beacon.Base.Query.{Bytes, encode}
use if_sos_beacon.Base.Query.Parsed.{
  parse_query, parse_query-encode, IsValid, received, IsValidPair,
}
use if_sos_beacon.Sources.Hn.{Hn}
use if_sos_beacon.Sources.Web.{hn_values, hn_request, search_values, search_request}

abbrev named : List (Text × Text) → List (Bytes × Bytes)
named = map received

-- A request goes to this address, with a query in which the server reads these parameters.
pub record AsksFor (url address : Text) (parameters : List (Bytes × Bytes)) : Type 0 where
  pub query : Text
  pub written : url ≡ address ++ query
  pub read : parse_query query ≡ parameters

abbrev pub hn_parameters : Text → List (Bytes × Bytes)
hn_parameters keyword = named (
    (codes "hitsPerPage", codes "20")
    ∷ (codes "query", keyword)
    ∷ (codes "tags", codes "story")
    ∷ [])

abbrev pub search_parameters : Text → List (Bytes × Bytes)
search_parameters keyword = named (
    (codes "limit", codes "25")
    ∷ (codes "q", keyword)
    ∷ (codes "raw_json", codes "1")
    ∷ (codes "restrict_sr", codes "1")
    ∷ (codes "sort", codes "new")
    ∷ (codes "type", codes "link")
    ∷ [])

hn_values-valid : (keyword : Text) → IsValid keyword → All IsValidPair (hn_values keyword)
unfolding hn_values insert ◌=ᵗ◌
hn_values-valid keyword h = ground arith

hn_values-parsed :
    (keyword : Text)
    → IsValid keyword
    → parse_query (encode (hn_values keyword)) ≡ hn_parameters keyword
unfolding hn_values insert ◌=ᵗ◌ sort_by place text_leb
hn_values-parsed keyword h = parse_query-encode _ _ (hn_values-valid keyword h)

search_values-valid : (keyword : Text) → IsValid keyword → All IsValidPair (search_values keyword)
unfolding search_values insert ◌=ᵗ◌
search_values-valid keyword h = ground arith

search_values-parsed :
    (keyword : Text)
    → IsValid keyword
    → parse_query (encode (search_values keyword)) ≡ search_parameters keyword
unfolding search_values insert ◌=ᵗ◌ sort_by place text_leb
search_values-parsed keyword h = parse_query-encode _ _ (search_values-valid keyword h)

-- Whatever a keyword holds, the server of Hacker News reads from the request exactly the page size, the
-- story tag and the keyword's bytes, and Reddit's exactly the keyword's bytes and the five fixed
-- parameters, at the fixed address and at the one of the subreddits. The keyword is taken to be a valid
-- string.
pub keyword_requests_read :
    (h : Hn) (base token multi keyword : Text)
    → IsValid keyword
    → AsksFor (hn_request h keyword).url (h.endpoint ++ codes "?") (hn_parameters keyword)
      × AsksFor
          (search_request base token multi keyword).url
          (base ++ codes "/r/" ++ multi ++ codes "/search?")
          (search_parameters keyword)
unfolding hn_request search_request
keyword_requests_read h base token multi keyword valid = (
  record {
    query = encode (hn_values keyword);
    written = simp append_assoc;
    read = hn_values-parsed keyword valid;
  },
  record {
    query = encode (search_values keyword);
    written = simp append_assoc;
    read = search_values-parsed keyword valid;
  },
)
