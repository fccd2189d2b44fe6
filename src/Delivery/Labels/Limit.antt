-- ===== src/Delivery/Labels/Limit.antt =====
-- The title of an embed against Discord's limit.
use if_sos_beacon.Base.{
  Text, ℕ, true, false, zero, suc, ◌≤◌, ◌<◌, ◌≢◌, ◌≡◌, ◌⊎◌, refl, [], ◌∷◌, ◌++◌, codes, length,
  take, ltb, arith, length-append, Bool-cases, inl, inr, ap,
}
use if_sos_beacon.Base.Go.{Platform}
use if_sos_beacon.Core.{Signal}
use if_sos_beacon.Delivery.Labels.{source_label, or_text, full_title, embed_title}

length-take : (n : ℕ) (s : Text) → n ≤ length s → length (take n s) ≡ n
length-take zero s le = refl
length-take (suc n) [] le = omega (arith, le)
length-take (suc n) (c ∷ s) le = ap suc (length-take n s (omega (arith, le)))

-- What the reader is shown: the story's title, or its id where there is none.
abbrev pub IsHeadline : Signal → Text → Type 0
IsHeadline s t = (s.title ≡ []) × (t ≡ s.id) ⊎ (s.title ≢ []) × (t ≡ s.title)

or_text-IsHeadline : (s : Signal) → IsHeadline s (or_text s.title s.id)
or_text-IsHeadline s = go s.title
  where
    go : (t : Text) → (t ≡ []) × (or_text t s.id ≡ s.id) ⊎ (t ≢ []) × (or_text t s.id ≡ t)
    go [] = inl (refl, refl)
    go (c ∷ t) = inr (λ e. ground arith, refl)

at_most : (n : ℕ) → ltb 256 n ≡ false → n ≤ 256
at_most n h = ground arith

more_than : (n : ℕ) → ltb 256 n ≡ true → 256 < n
more_than n h = ground arith

-- An embed's title is the source's label in brackets, a blank, and the story's title, or its id where the
-- title is empty. A text of up to 256 characters stands whole; of a longer one stand the first
-- 255 characters and an ellipsis, so exactly the 256 that Discord accepts.
pub embed_title_bounds :
    (p : Platform) (s : Signal)
    → (headline : Text) × IsHeadline s headline
      × (let full = codes "[" ++ (source_label p s.source).0 ++ codes "] " ++ headline in
          (length full ≤ 256) × (embed_title p s ≡ full)
          ⊎ (256 < length full)
            × (embed_title p s ≡ take 255 full ++ codes "…")
            × (length (embed_title p s) ≡ 256))
unfolding embed_title full_title
embed_title_bounds p s =
    let headline = or_text s.title s.id in
    let full : Text = codes "[" ++ (source_label p s.source).0 ++ codes "] " ++ headline in
    (
      headline,
      or_text-IsHeadline s,
      elim (Bool-cases (ltb 256 (length full))) [
        | inr fits ↦ inl (at_most (length full) fits, rw fits refl)
        | inl long ↦
            let over = more_than (length full) long in
            let cut = length-take 255 full (omega (arith, over)) in
            let len = length-append {0} (take 255 full) (codes "…") in
            inr (over, rw long refl, rw long (omega (arith, cut, len)))
      ],
    )
