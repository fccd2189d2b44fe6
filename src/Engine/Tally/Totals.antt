-- ===== src/Engine/Tally/Totals.antt =====
-- Every step of a counter shows once in the total of the funnel.
use if_sos_beacon.Base.{
  Text, ℕ, ◌≡◌, refl, ap, ◌∙◌, [], ◌∷◌, arith, ◌=ᵗ◌, Bool-cases, inl, inr, if◌then◌else◌,
}
use if_sos_beacon.Base.Maps.{lookup, insert}
use if_sos_beacon.Engine.Tally.{
  SourceStats, Tally, Counter, no_stats, at, add_to, bump, plus, column_sums,
}

plus-add_to :
    (c : Counter) (n : ℕ) (a b : SourceStats) → plus a (add_to c n b) ≡ add_to c n (plus a b)
unfolding plus add_to
plus-add_to Counter.fetched n a b = ground arith
plus-add_to _ n a b = ground arith

plus-add_to_left :
    (c : Counter) (n : ℕ) (a b : SourceStats) → plus (add_to c n a) b ≡ add_to c n (plus a b)
unfolding plus add_to
plus-add_to_left Counter.fetched n a b = ground arith
plus-add_to_left _ n a b = ground arith

column_sums-add_to :
    (c : Counter) (n : ℕ) (a : SourceStats) (t : Tally)
    → column_sums (add_to c n a) t ≡ add_to c n (column_sums a t)
unfolding column_sums
column_sums-add_to c n a [] = refl
column_sums-add_to c n a ((name, s) ∷ t) =
    rw (plus-add_to_left c n a s) (column_sums-add_to c n (plus a s) t)

plus-no_stats : (a : SourceStats) → plus a no_stats ≡ a
unfolding plus
plus-no_stats a = ground arith

at-cons :
    (name source : Text) (s : SourceStats) (t : Tally)
    → at ((name, s) ∷ t) source ≡ (if name =ᵗ source then s else at t source)
unfolding at lookup
at-cons name source s t = ground arith

-- A counter's step shows in the sums once.
column_sums-insert :
    (c : Counter) (n : ℕ) (source : Text) (a x : SourceStats) (t : Tally)
    → x ≡ add_to c n (at t source)
    → column_sums a (insert source x t) ≡ add_to c n (column_sums a t)
unfolding column_sums insert
column_sums-insert c n source a x [] h =
    unfold at lookup in
    (ap (plus a) h ∙ plus-add_to c n a no_stats ∙ ap (add_to c n) (plus-no_stats a))
column_sums-insert c n source a x ((name, s) ∷ t) h = elim (Bool-cases (name =ᵗ source)) [
  | inl e ↦
      let h' : x ≡ add_to c n s = rw (at-cons name source s t, e) at h in
      rw e (
        ap (λ y. column_sums y t) (ap (plus a) h' ∙ plus-add_to c n a s)
        ∙ column_sums-add_to c n (plus a s) t)
  | inr e ↦
      let h' : x ≡ add_to c n (at t source) = rw (at-cons name source s t, e) at h in
      rw e (column_sums-insert c n source (plus a s) x t h')
]

abbrev pub total : Tally → SourceStats
total = column_sums no_stats

pub total-bump :
    (c : Counter) (n : ℕ) (source : Text) (t : Tally)
    → total (bump c n source t) ≡ add_to c n (total t)
unfolding bump
total-bump c n source t = column_sums-insert c n source no_stats _ t refl
