-- ===== src/Tests/FilterTests.antt =====
-- The keyword gate on one post.
use if_sos_beacon.Base.{codes, ◌≡◌, refl, ◌↔◌, ◌⊎◌, true, false, [], ◌∷◌}
use if_sos_beacon.Base.Go.{to_lower}
use if_sos_beacon.Filter.{matches}
use if_sos_beacon.Filter.Laws.{SomeOccurs, searched, matches_iff}
use if_sos_beacon.Tests.Fixtures.{ascii, post}

by_title : matches ascii post (codes "DATADOG" ∷ []) [] ≡ true
unfolding matches
by_title = refl

by_tag : matches ascii post (codes "devops" ∷ []) [] ≡ true
unfolding matches
by_tag = refl

blank_keywords : matches ascii post ([] ∷ []) [] ≡ false
unfolding matches
blank_keywords = refl

matches_iff_example : (matches ascii post (codes "datadog" ∷ []) [] ≡ true) ↔ (
    (codes "datadog" ∷ [] ≡ [])
    ⊎ SomeOccurs ascii (to_lower ascii (searched post)) (codes "datadog" ∷ []))
matches_iff_example = matches_iff ascii post (codes "datadog" ∷ []) []
