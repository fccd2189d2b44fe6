-- ===== src/Base/Query.antt =====
-- Values.Encode and QueryEscape of package net/url, over the UTF-8 bytes of a string. The values are a
-- map from keys to one value each.
pub mod Parsed
use if_sos_beacon.Base.Tests.{ltb, leb, ◌==◌, if◌then◌else◌}
use if_sos_beacon.Base.Texts.{Text, codes, join}
use if_sos_beacon.Base.Maps.{Map}
use if_sos_beacon.Base.Sort.{sort_by}
use Prim.Native.Nat.{ℕ, ◌+◌, ◌/◌, ◌%◌}
use mathlib.Core.Bool.{Bool, ◌&&◌, ◌||◌}
use mathlib.Core.List.{List, [], ◌∷◌, ◌++◌, map, flat_map}

abbrev pub Bytes : Type 0
Bytes = List ℕ

-- The encoding of one code point.
unfoldable pub rune_bytes : ℕ → Bytes
rune_bytes c =
    if ltb c 0x80
    then c ∷ []
    else if ltb c 0x800
    then (0xC0 + c / 64) ∷ (0x80 + c % 64) ∷ []
    else if ltb c 0x10000
    then (0xE0 + c / 4096) ∷ (0x80 + c / 64 % 64) ∷ (0x80 + c % 64) ∷ []
    else (0xF0 + c / 262144) ∷ (0x80 + c / 4096 % 64) ∷ (0x80 + c / 64 % 64) ∷ (0x80 + c % 64) ∷ []

unfoldable pub utf8 : Text → Bytes
unfolding rune_bytes flat_map
utf8 s = flat_map rune_bytes s

-- What shouldEscape leaves as it is.
unfoldable pub is_unreserved : ℕ → Bool
is_unreserved b =
    (leb b'a' b && leb b b'z')
    || (leb b'A' b && leb b b'Z')
    || (leb b'0' b && leb b b'9')
    || b == b'-'
    || b == b'_'
    || b == b'.'
    || b == b'~'

abbrev pub upper_hex : ℕ → ℕ
upper_hex n = if ltb n 10 then 48 + n else 55 + n

unfoldable pub escape_byte : ℕ → Text
unfolding is_unreserved
escape_byte b =
    if b == 32
    then b'+' ∷ []
    else if is_unreserved b
    then b ∷ []
    else b'%' ∷ upper_hex (b / 16) ∷ upper_hex (b % 16) ∷ []

unfoldable pub escape_bytes : Bytes → Text
unfolding escape_byte flat_map
escape_bytes = flat_map escape_byte

unfoldable pub query_escape : Text → Text
unfolding utf8 escape_bytes
query_escape s = escape_bytes (utf8 s)

unfoldable pub field : Text × Text → Text
unfolding query_escape
field (k, v) = query_escape k ++ b'=' ∷ query_escape v

-- In the order of the keys.
unfoldable pub encode : Map Text → Text
unfolding field join sort_by
encode m = join (map field (sort_by (λ kv. kv.0) m)) (codes "&")
