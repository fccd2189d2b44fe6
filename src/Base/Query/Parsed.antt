-- ===== src/Base/Query/Parsed.antt =====
-- What a server reads from an encoded query.
use if_sos_beacon.Base.Tests.{ltb, ◌==◌, if◌then◌else◌, Bool-cases}
use if_sos_beacon.Base.Lists.{All, All-append}
use if_sos_beacon.Base.Texts.{Text, codes, join, split, Lacks}
use if_sos_beacon.Base.TextLaws.{split-append, split-Lacks, split-join}
use if_sos_beacon.Base.Maps.{Map}
use if_sos_beacon.Base.Sort.{sort_by, place, text_leb}
use if_sos_beacon.Base.Query.{
  Bytes, rune_bytes, utf8, is_unreserved, escape_byte, escape_bytes, query_escape, field, encode,
}
use Prim.Native.Nat.{ℕ, ◌+◌, ◌-◌, ◌*◌, ◌<◌}
use mathlib.Core.Path.{◌≡◌, refl, ap, ◌∙◌}
use mathlib.Core.Logic.{inl, inr, ◌⊎◌, ◌≢◌}
use mathlib.Core.List.{List, [], ◌∷◌, ◌++◌, map, flat_map}
use native.Mathlib.Omega.{arith}

abbrev from_hex : ℕ → ℕ
from_hex d = if ltb d 58 then d - 48 else d - 55

-- Where a reader stands: at a plain byte, behind a percent sign, or behind its first digit.
pub data Reading : Type 0 where
  plain : Reading
  percent : Reading
  digit : ℕ → Reading

-- RFC 3986 percent-decoding, with the plus sign for a blank.
unescape : Reading → Text → Bytes
unescape r [] = []
unescape plain (c ∷ s) =
    let escaped = unescape percent s in
    let rest = unescape plain s in
    if c == b'%' then escaped else (if c == b'+' then 32 else c) ∷ rest
unescape percent (c ∷ s) = unescape (digit c) s
unescape (digit d) (c ∷ s) = (16 * from_hex d + from_hex c) ∷ unescape plain s

-- A part of the query at its first equals sign.
parse_field : List Text → Bytes × Bytes
unfolding unescape
parse_field [] = ([], [])
parse_field (k ∷ []) = (unescape plain k, [])
parse_field (k ∷ v ∷ rest) = (unescape plain k, unescape plain v)

-- The parameters that a query names.
unfoldable pub parse_query : Text → List (Bytes × Bytes)
unfolding parse_field split
parse_query s = map (λ part. parse_field (split part b'=')) (split s b'&')

abbrev IsByte : ℕ → Type 0
IsByte b = b < 256

-- The code points of a valid string.
abbrev pub IsValid : Text → Type 0
IsValid = All (λ c. c < 0x110000)

rune_bytes-IsByte : (c : ℕ) → c < 0x110000 → All IsByte (rune_bytes c)
unfolding rune_bytes
rune_bytes-IsByte c h = ground arith

utf8-IsByte : (s : Text) → IsValid s → All IsByte (utf8 s)
unfolding utf8 flat_map
utf8-IsByte [] h = tt
utf8-IsByte (c ∷ s) (h, hs) =
    All-append IsByte (rune_bytes c) (utf8 s) (rune_bytes-IsByte c h) (utf8-IsByte s hs)

unescape-escape_byte :
    (b : ℕ) (s : Text) → b < 256 → unescape plain (escape_byte b ++ s) ≡ b ∷ unescape plain s
unfolding unescape escape_byte is_unreserved
unescape-escape_byte b s h = ground arith

unescape-escape_bytes : (bs : Bytes) → All IsByte bs → unescape plain (escape_bytes bs) ≡ bs
unfolding escape_bytes flat_map unescape
unescape-escape_bytes [] h = refl
unescape-escape_bytes (b ∷ bs) (h, hs) =
    rw (unescape-escape_byte b (escape_bytes bs) h, unescape-escape_bytes bs hs) refl

escape_byte-Lacks : (b sep : ℕ) → (sep ≡ b'&') ⊎ (sep ≡ b'=') → Lacks sep (escape_byte b)
unfolding escape_byte is_unreserved
escape_byte-Lacks b sep h = ground arith

escape_bytes-Lacks :
    (bs : Bytes) (sep : ℕ) → (sep ≡ b'&') ⊎ (sep ≡ b'=') → Lacks sep (escape_bytes bs)
unfolding escape_bytes flat_map
escape_bytes-Lacks [] sep h = tt
escape_bytes-Lacks (b ∷ bs) sep h =
    All-append (λ c. c ≢ sep) (escape_byte b) (escape_bytes bs) (escape_byte-Lacks b sep h)
      (escape_bytes-Lacks bs sep h)

-- A parameter as the server has it.
abbrev pub received : Text × Text → Bytes × Bytes
received (k, v) = (utf8 k, utf8 v)

abbrev pub IsValidPair : Text × Text → Type 0
IsValidPair (k, v) = IsValid k × IsValid v

field-Lacks : (kv : Text × Text) → Lacks b'&' (field kv)
unfolding field query_escape
field-Lacks (k, v) =
    All-append (λ c. c ≢ b'&') (query_escape k) (b'=' ∷ query_escape v)
      (escape_bytes-Lacks (utf8 k) b'&' (inl refl))
      (omega arith, escape_bytes-Lacks (utf8 v) b'&' (inl refl))

unescape-query_escape : (s : Text) → IsValid s → unescape plain (query_escape s) ≡ utf8 s
unfolding query_escape
unescape-query_escape s h = unescape-escape_bytes (utf8 s) (utf8-IsByte s h)

split-field : (k v : Text) → split (field (k, v)) b'=' ≡ query_escape k ∷ query_escape v ∷ []
unfolding field query_escape
split-field k v =
    split-append b'=' (query_escape k) (query_escape v)
      (escape_bytes-Lacks (utf8 k) b'=' (inr refl))
    ∙ ap (λ r. query_escape k ∷ r)
        (split-Lacks b'=' (query_escape v) (escape_bytes-Lacks (utf8 v) b'=' (inr refl)))

parse_field-field :
    (kv : Text × Text) → IsValidPair kv → parse_field (split (field kv) b'=') ≡ received kv
unfolding parse_field
parse_field-field (k, v) (hk, hv) =
    rw (split-field k v, unescape-query_escape k hk, unescape-query_escape v hv) refl

parse_fields :
    (kvs : List (Text × Text))
    → All IsValidPair kvs
    → map (λ part. parse_field (split part b'=')) (map field kvs) ≡ map received kvs
parse_fields [] h = refl
parse_fields (kv ∷ kvs) (h, hs) = rw (parse_field-field kv h, parse_fields kvs hs) refl

fields-Lacks : (kvs : List (Text × Text)) → All (Lacks b'&') (map field kvs)
fields-Lacks [] = tt
fields-Lacks (kv ∷ kvs) = (field-Lacks kv, fields-Lacks kvs)

parse_joined :
    (kv : Text × Text) (kvs : List (Text × Text))
    → All IsValidPair (kv ∷ kvs)
    → parse_query (join (map field (kv ∷ kvs)) (codes "&")) ≡ map received (kv ∷ kvs)
unfolding parse_query
parse_joined kv kvs h =
    rw (split-join b'&' (field kv) (map field kvs) (field-Lacks kv) (fields-Lacks kvs))
      (parse_fields (kv ∷ kvs) h)

place-IsValidPair :
    (kv : Text × Text) (m : Map Text)
    → IsValidPair kv
    → All IsValidPair m
    → All IsValidPair (place (λ e. e.0) kv m)
unfolding place
place-IsValidPair kv [] h hs = (h, tt)
place-IsValidPair kv (x ∷ m) h (hx, hs) = elim (Bool-cases (text_leb kv.0 x.0)) [
  | inl e ↦ rw e (h, (hx, hs))
  | inr n ↦ rw n (hx, place-IsValidPair kv m h hs)
]

sort_by-IsValidPair : (m : Map Text) → All IsValidPair m → All IsValidPair (sort_by (λ e. e.0) m)
unfolding sort_by
sort_by-IsValidPair [] h = tt
sort_by-IsValidPair (kv ∷ m) (h, hs) = place-IsValidPair kv _ h (sort_by-IsValidPair m hs)

parse_sorted :
    (m : Map Text)
    → (m ≢ [])
    → All IsValidPair m
    → parse_query (join (map field m) (codes "&")) ≡ map received m
parse_sorted [] n h = absurd (n refl)
parse_sorted (kv ∷ m) n h = parse_joined kv m h

place-cons : (kv : Text × Text) (m : Map Text) → place (λ e. e.0) kv m ≢ []
unfolding place
place-cons kv [] = λ e. ground arith
place-cons kv (x ∷ m) = elim (Bool-cases (text_leb kv.0 x.0)) [
  | inl e ↦ rw e (λ q. ground arith)
  | inr n ↦ rw n (λ q. ground arith)
]

-- A server that splits the query and decodes its parts gets the parameters' bytes, in the order of the
-- keys, whatever they hold.
pub parse_query-encode :
    (kv : Text × Text) (m : Map Text)
    → All IsValidPair (kv ∷ m)
    → parse_query (encode (kv ∷ m)) ≡ map received (sort_by (λ e. e.0) (kv ∷ m))
unfolding encode sort_by
parse_query-encode kv m h =
    parse_sorted (sort_by (λ e. e.0) (kv ∷ m)) (place-cons kv (sort_by (λ e. e.0) m))
      (sort_by-IsValidPair (kv ∷ m) h)
