-- ===== src/Filter/Laws.antt =====
-- What the keyword gate lets pass.
use if_sos_beacon.Base.{
  Text, codes, join, ◌++◌, contains, ◌=ᵗ◌, =ᵗ_iff, ◌≡◌, ◌≢◌, refl, ◌↔◌, ◌⊎◌, inl, inr, true, List,
  [], ◌∷◌, arith, Bool-cases,
}
use if_sos_beacon.Base.TextLaws.{Occurs, contains_iff}
use if_sos_beacon.Base.Go.{Platform, to_lower}
use if_sos_beacon.Core.{Signal}
use if_sos_beacon.Filter.{haystack, any_keyword, matches}

-- Some keyword that is not empty occurs in the text, the keyword lowered.
abbrev pub SomeOccurs : Platform → Text → List Text → Type 0
SomeOccurs p hay [] = ⊥
SomeOccurs p hay (k ∷ ks) = (k ≢ []) × Occurs (to_lower p k) hay ⊎ SomeOccurs p hay ks

any_keyword_iff :
    (p : Platform) (hay : Text) (ks : List Text)
    → (any_keyword p hay ks ≡ true) ↔ SomeOccurs p hay ks
unfolding any_keyword
any_keyword_iff p hay [] = (λ h. cc, λ h. absurd h)
any_keyword_iff p hay (k ∷ ks) = (
  λ h. elim (Bool-cases (k =ᵗ [])) [
    | inl b ↦ inr ((any_keyword_iff p hay ks).0 (rw b at h))
    | inr b ↦ elim (Bool-cases (contains hay (to_lower p k))) [
      | inl c ↦ inl (ground (arith, =ᵗ_iff k []), (contains_iff hay (to_lower p k)).0 c)
      | inr c ↦ inr ((any_keyword_iff p hay ks).0 (rw (b, c) at h))
    ]
  ],
  elim [
    | inl (ne, o) ↦ ground (arith, =ᵗ_iff k [], (contains_iff hay (to_lower p k)).1 o)
    | inr r ↦ ground (arith, (any_keyword_iff p hay ks).1 r)
  ],
)

-- What is searched, part by part: the title, the body, the tags and the top comments, each behind a
-- blank.
abbrev pub searched : Signal → Text
searched s =
    s.title
    ++ codes " "
    ++ s.body
    ++ codes " "
    ++ join s.tags (codes " ")
    ++ codes " "
    ++ join s.top_comments (codes " ")

-- A signal passes the gate exactly when no keyword is configured, or some keyword that is not empty
-- occurs, lowered, in the lowered text of its title, body, tags and top comments, which stand in this
-- order with a blank between any two. The filter expression has no part in it.
pub matches_iff :
    (p : Platform) (s : Signal) (ks : List Text) (expr : Text)
    → (matches p s ks expr ≡ true) ↔ ((ks ≡ []) ⊎ SomeOccurs p (to_lower p (searched s)) ks)
unfolding matches haystack
matches_iff p s [] expr = (λ _. inl refl, λ _. refl)
matches_iff p s (k ∷ ks) expr = (
  λ h. inr ((any_keyword_iff p _ (k ∷ ks)).0 h),
  elim [ inl e ↦ cc | inr o ↦ (any_keyword_iff p _ (k ∷ ks)).1 o ],
)
