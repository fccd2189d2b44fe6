-- ===== src/Prompts/Replace.antt =====
-- strings.ReplaceAll for a pattern that is not empty.
use if_sos_beacon.Base.{
  Text, has_prefix, ℕ, zero, suc, ◌-◌, ◌≡◌, refl, true, [], ◌∷◌, ◌++◌, length, arith, Lacks,
  if◌then◌else◌,
}

-- `skip` characters are left of a match that was replaced.
unfoldable pub replace_from : Text → Text → ℕ → Text → Text
unfolding has_prefix
replace_from old new skip [] = []
replace_from old new (suc skip) (c ∷ s) = replace_from old new skip s
replace_from old new zero (c ∷ s) =
    let hit = new ++ replace_from old new (length old - 1) s in
    let miss = c ∷ replace_from old new zero s in if has_prefix (c ∷ s) old then hit else miss

unfoldable pub replace_all : Text → Text → Text → Text
unfolding replace_from
replace_all s old new = replace_from old new zero s

abbrev pub brace : ℕ
brace = b'{'

-- The rest of a match is passed over.
skip-append :
    (old new p s : Text) → replace_from old new (length p) (p ++ s) ≡ replace_from old new zero s
unfolding replace_from
skip-append old new [] s = refl
skip-append old new (c ∷ p) s = skip-append old new p s

has_prefix-append : (p s : Text) → has_prefix (p ++ s) p ≡ true
unfolding has_prefix
has_prefix-append [] s = refl
has_prefix-append (c ∷ p) s = ground (arith, has_prefix-append p s)

module _ (tail new : Text) where
  -- Text without a brace stays.
  pub replace_all-plain :
      (a s : Text)
      → Lacks brace a
      → replace_all (a ++ s) (brace ∷ tail) new ≡ a ++ replace_all s (brace ∷ tail) new
  unfolding replace_all
  replace_all-plain [] s h = refl
  replace_all-plain (c ∷ a) s (n, h) = ground (arith, replace_all-plain a s h)

  -- A match is replaced.
  pub replace_all-match :
      (s : Text)
      → replace_all (brace ∷ tail ++ s) (brace ∷ tail) new ≡ new ++ replace_all s (brace ∷ tail) new
  unfolding replace_all
  replace_all-match s =
      let pred : suc (length tail) - 1 ≡ length tail = omega arith in
      rw (has_prefix-append (brace ∷ tail) s, pred, skip-append (brace ∷ tail) new tail s) refl

  pub replace_all-end : (a : Text) → Lacks brace a → replace_all a (brace ∷ tail) new ≡ a
  unfolding replace_all
  replace_all-end [] h = refl
  replace_all-end (c ∷ a) (n, h) = ground (arith, replace_all-end a h)
