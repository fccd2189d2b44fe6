-- ===== src/Base/TextLaws.antt =====
-- Laws of the string functions: what a search finds, and how a split meets a join.
use if_sos_beacon.Base.Tests.{◌==◌, Bool-cases, ==_iff}
use if_sos_beacon.Base.Lists.{All}
use if_sos_beacon.Base.Texts.{Text, has_prefix, contains, split, split_from, join, join_rest, Lacks}
use Prim.Native.Nat.{ℕ}
use mathlib.Core.Path.{◌≡◌, refl, ap, ◌∙◌}
use mathlib.Core.Logic.{◌↔◌, inl, inr}
use mathlib.Core.Bool.{true}
use mathlib.Core.List.{List, [], ◌∷◌, ◌++◌, append_assoc, append-nil}
use native.Mathlib.Omega.{arith}

-- `sub` stands somewhere in `s`.
abbrev pub Occurs : Text → Text → Type 0
Occurs sub s = (before : Text) × (after : Text) × (s ≡ before ++ (sub ++ after))

prefix_split : (s t : Text) → has_prefix s t ≡ true → (after : Text) × (s ≡ t ++ after)
unfolding has_prefix
prefix_split s [] h = (s, refl)
prefix_split [] (d ∷ t) h = cc
prefix_split (c ∷ s) (d ∷ t) h = elim (Bool-cases (c == d)) [
  | inl e ↦ let (after, eq) = prefix_split s t (rw e at h) in (after, ground (arith, ==_iff c d))
  | inr ne ↦ ground arith
]

has_prefix-append : (t after : Text) → has_prefix (t ++ after) t ≡ true
unfolding has_prefix
has_prefix-append [] [] = refl
has_prefix-append [] (c ∷ after) = refl
has_prefix-append (d ∷ t) after = ground (arith, has_prefix-append t after)

contains_sound : (s sub : Text) → contains s sub ≡ true → Occurs sub s
unfolding contains
contains_sound [] sub h = let (after, e) = prefix_split [] sub h in ([], after, e)
contains_sound (c ∷ s) sub h = elim (Bool-cases (has_prefix (c ∷ s) sub)) [
  | inl p ↦ let (after, e) = prefix_split (c ∷ s) sub p in ([], after, e)
  | inr n ↦
      let (before, after, e) = contains_sound s sub (rw n at h) in
      (c ∷ before, after, ap (λ t. c ∷ t) e)
]

contains-middle : (before sub after : Text) → contains (before ++ (sub ++ after)) sub ≡ true
unfolding contains
contains-middle [] [] [] = unfold has_prefix in refl
contains-middle [] [] (c ∷ after) = ground (arith, has_prefix-append [] (c ∷ after))
contains-middle [] (d ∷ sub) after = ground (arith, has_prefix-append (d ∷ sub) after)
contains-middle (c ∷ before) sub after = ground (arith, contains-middle before sub after)

pub contains_iff : (s sub : Text) → (contains s sub ≡ true) ↔ Occurs sub s
contains_iff s sub = (contains_sound s sub, λ o. rw o.2 (contains-middle o.0 sub o.1))

split_from-append :
    (sep : ℕ) (a s cur : Text)
    → Lacks sep a
    → split_from sep cur (a ++ sep ∷ s) ≡ (cur ++ a) ∷ split_from sep [] s
unfolding split_from
split_from-append sep [] s cur h = ground (arith, append-nil cur)
split_from-append sep (c ∷ a) s cur (n, h) =
    ground (arith, split_from-append sep a s (cur ++ c ∷ []) h, append_assoc cur (c ∷ []) a)

-- A part without the separator is split off.
pub split-append : (sep : ℕ) (a s : Text) → Lacks sep a → split (a ++ sep ∷ s) sep ≡ a ∷ split s sep
unfolding split
split-append sep a s h = split_from-append sep a s [] h

split_from-Lacks : (sep : ℕ) (a cur : Text) → Lacks sep a → split_from sep cur a ≡ (cur ++ a) ∷ []
unfolding split_from
split_from-Lacks sep [] cur h = ground (arith, append-nil cur)
split_from-Lacks sep (c ∷ a) cur (n, h) =
    ground (arith, split_from-Lacks sep a (cur ++ c ∷ []) h, append_assoc cur (c ∷ []) a)

-- A text without the separator is one part.
pub split-Lacks : (sep : ℕ) (a : Text) → Lacks sep a → split a sep ≡ a ∷ []
unfolding split
split-Lacks sep a h = split_from-Lacks sep a [] h

-- A split undoes a join of parts without the separator.
pub split-join :
    (sep : ℕ) (p : Text) (ps : List Text)
    → Lacks sep p
    → All (Lacks sep) ps
    → split (join (p ∷ ps) (sep ∷ [])) sep ≡ p ∷ ps
unfolding join join_rest
split-join sep p [] h hs = rw append-nil (split-Lacks sep p h)
split-join sep p (q ∷ ps) h (hq, hs) =
    split-append sep p (q ++ join_rest (sep ∷ []) ps) h
    ∙ ap (λ r. p ∷ r) (split-join sep q ps hq hs)

-- A split has at least one part.
pub split-cons :
    (s cur : Text) (sep : ℕ) → (p : Text) × (ps : List Text) × (split_from sep cur s ≡ p ∷ ps)
unfolding split_from
split-cons [] cur sep = (cur, [], refl)
split-cons (c ∷ s) cur sep = elim (Bool-cases (c == sep)) [
  | inl e ↦ (cur, split_from sep [] s, rw e)
  | inr n ↦ rw n (split-cons s (cur ++ c ∷ []) sep)
]

-- Texts that go on at the same separator, and do not hold it, are equal with what follows them.
pub append-sep_inj :
    (sep : ℕ) (a b s t : Text)
    → Lacks sep a
    → Lacks sep b
    → a ++ sep ∷ s ≡ b ++ sep ∷ t
    → (a ≡ b) × (s ≡ t)
append-sep_inj sep [] [] s t _ _ e = ground arith
append-sep_inj sep [] (d ∷ b) s t _ (n, _) e = absurd (ground arith)
append-sep_inj sep (c ∷ a) [] s t (n, _) _ e = absurd (ground arith)
append-sep_inj sep (c ∷ a) (d ∷ b) s t (_, ha) (_, hb) e =
    ground (arith, append-sep_inj sep a b s t ha hb)
