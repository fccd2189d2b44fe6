-- ===== src/Filter.antt =====
-- internal/filter/filter.go: the keyword gate.
pub mod Laws
use if_sos_beacon.Base.{
  Text, codes, contains, join, ◌=ᵗ◌, Bool, true, false, List, [], ◌∷◌, ◌++◌, ◌||◌, ◌&&◌, not,
  if◌then◌else◌,
}
use if_sos_beacon.Base.Go.{Platform, to_lower}
use if_sos_beacon.Core.{Signal}

abbrev space : Text
space = codes " "

-- The text that is searched, before lowering.
pub haystack : Signal → Text
haystack s =
    s.title ++ space ++ s.body ++ space ++ join s.tags space ++ space ++ join s.top_comments space

-- The loop over the keywords. An empty keyword is skipped.
any_keyword : Platform → Text → List Text → Bool
unfolding ◌=ᵗ◌ contains to_lower
any_keyword p hay [] = false
any_keyword p hay (k ∷ ks) =
    let rest = any_keyword p hay ks in
    if k =ᵗ [] then rest else if contains hay (to_lower p k) then true else rest

-- `expr` is accepted and not read.
unfoldable pub matches : Platform → Signal → List Text → Text → Bool
unfolding any_keyword haystack to_lower join
matches p s [] expr = true
matches p s (k ∷ ks) expr = any_keyword p (to_lower p (haystack s)) (k ∷ ks)
