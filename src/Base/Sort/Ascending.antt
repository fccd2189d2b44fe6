-- ===== src/Base/Sort/Ascending.antt =====
-- A sort is the one ascending permutation of its input, so the order of the input does not matter.
use if_sos_beacon.Base.Tests.{Bool-cases}
use if_sos_beacon.Base.Texts.{Text}
use if_sos_beacon.Base.Sort.{
  text_leb, text_leb-total, text_leb-antisym, text_leb_trans, place, sort_by,
}
use mathlib.Core.Path.{◌≡◌, ap₂}
use mathlib.Core.Logic.{inl, inr}
use mathlib.Core.Bool.{true}
use mathlib.Core.List.{List, [], ◌∷◌, Mem, Perm, not-mem-nil, mem-cons_self, forall_mem-cons}
use mathlib.Core.List.Perm

-- `s` comes before all of them.
abbrev Below : Text → List Text → Type 0
Below s l = (t : Text) → Mem t l → text_leb s t ≡ true

abbrev pub IsAscending : List Text → Type 0
IsAscending [] = Unit {0}
IsAscending (s ∷ l) = Below s l × IsAscending l

abbrev pub sorted : List Text → List Text
sorted = sort_by (λ s. s)

text_leb_refl : (s : Text) → text_leb s s ≡ true
text_leb_refl s = elim (Bool-cases (text_leb s s)) [ inl e ↦ e | inr n ↦ text_leb-total s s n ]

Below-cons : (s t : Text) (l : List Text) → text_leb s t ≡ true → Below s l → Below s (t ∷ l)
Below-cons s t l h hs = (forall_mem-cons (λ x. hlevel)).1 (h, hs)

Below-perm : (s : Text) {l r : List Text} → Perm l r → Below s r → Below s l
Below-perm s p h x m = h x ((Perm.mem_iff p).0 m)

Below-trans : (s t : Text) (l : List Text) → text_leb s t ≡ true → Below t l → Below s (t ∷ l)
Below-trans s t l h hs = Below-cons s t l h (λ x m. text_leb_trans s t x h (hs x m))

head_le : (s t : Text) (l r : List Text) → Below s l → Perm (t ∷ r) (s ∷ l) → text_leb s t ≡ true
head_le s t l r h p = Below-perm s p (Below-cons s s l (text_leb_refl s) h) t mem-cons_self

pub IsAscending-unique : (l r : List Text) → IsAscending l → IsAscending r → Perm l r → l ≡ r
IsAscending-unique [] r hl hr p = Perm.nil-eq p
IsAscending-unique (s ∷ l) [] hl hr p = Perm.eq-nil p
IsAscending-unique (s ∷ l) (t ∷ r) (bs, hl) (bt, hr) p =
    let heads = text_leb-antisym s t (head_le s t l r bs (Perm.symm p)) (head_le t s r l bt p) in
    let tails = Perm.cons_inv (Perm.trans p (Perm.symm (Perm.cons' heads Perm.rfl))) in
    ap₂ ◌∷◌ heads (IsAscending-unique l r hl hr tails)

place-perm : (s : Text) (l : List Text) → Perm (place (λ x. x) s l) (s ∷ l)
unfolding place
place-perm s [] = Perm.rfl
place-perm s (t ∷ l) = elim (Bool-cases (text_leb s t)) [
  | inl e ↦ rw e Perm.rfl
  | inr n ↦ rw n (Perm.trans (Perm.cons t (place-perm s l)) (Perm.swap s t l))
]

place-IsAscending : (s : Text) (l : List Text) → IsAscending l → IsAscending (place (λ x. x) s l)
unfolding place
place-IsAscending s [] h = (λ x m. absurd (not-mem-nil m), tt)
place-IsAscending s (t ∷ l) (b, h) = elim (Bool-cases (text_leb s t)) [
  | inl e ↦ rw e (Below-trans s t l e b, (b, h))
  | inr n ↦ rw n (
    Below-perm t (place-perm s l) (Below-cons t s l (text_leb-total s t n) b),
    place-IsAscending s l h,
  )
]

pub sorted-perm : (l : List Text) → Perm (sorted l) l
unfolding sort_by
sorted-perm [] = Perm.rfl
sorted-perm (s ∷ l) = Perm.trans (place-perm s (sorted l)) (Perm.cons s (sorted-perm l))

pub sorted-IsAscending : (l : List Text) → IsAscending (sorted l)
unfolding sort_by
sorted-IsAscending [] = tt
sorted-IsAscending (s ∷ l) = place-IsAscending s (sorted l) (sorted-IsAscending l)

-- Lists that are one another's permutations are sorted to the same list.
pub sorted-eq_of_perm : (l r : List Text) → Perm l r → sorted l ≡ sorted r
sorted-eq_of_perm l r p =
    IsAscending-unique (sorted l) (sorted r) (sorted-IsAscending l) (sorted-IsAscending r)
      (Perm.trans (sorted-perm l) (Perm.trans p (Perm.symm (sorted-perm r))))
