-- ===== src/Store/AzureSql/Counts.antt =====
-- The count that PurgeSource answers.
use if_sos_beacon.Base.{
  Text, ℕ, ◌+◌, ◌-◌, ◌≡◌, refl, ap, ◌∙◌, Bool, true, false, if◌then◌else◌, not, none, List, [], ◌∷◌,
  length, keep, arith,
}
use mathlib.Core.Path.{ap₂}
use if_sos_beacon.Store.AzureSql.Statements.{same, purge_seen, purge_finding}
use if_sos_beacon.Store.AzureSql.{
  Outcome, done, failed, lost, affected, Database, attempt, commit, purge_rows, purge_source,
}

keep-halves :
    {A : Type 0} (p : A → Bool) (xs : List A)
    → length (keep p xs) + length (keep (λ x. not (p x)) xs) ≡ length xs
unfolding keep
keep-halves p [] = refl
keep-halves p (x ∷ xs) = ground (arith, keep-halves p xs)

length-keep :
    {A : Type 0} (p : A → Bool) (xs : List A)
    → length xs - length (keep (λ x. not (p x)) xs) ≡ length (keep p xs)
length-keep p xs = let h = keep-halves p xs in omega arith

abbrev pub is_done : Outcome → Bool
is_done done = true
is_done (failed e) = false
is_done (lost e) = false

affected-is_done : (o : Outcome) (n : ℕ) → affected o n ≡ (if is_done o then n else 0)
affected-is_done done n = refl
affected-is_done (failed e) n = refl
affected-is_done (lost e) n = refl

-- If the driver carries out begin, the two deletions and the commit, PurgeSource reports no error and
-- the number of the source's rows in the two tables, those of a table left out where RowsAffected was
-- refused; these rows are gone, and the other rows and the claims are as they were.
pub purge_source_count :
    (collate quoted : Text → Text) (source : Text) (d : Database) (a b : Outcome)
    (rest : List Outcome)
    → d.outcomes ≡ done ∷ done ∷ a ∷ done ∷ b ∷ done ∷ rest
    → let r = purge_source collate quoted source d in
      (r.0 ≡ (
        (if is_done a
              then length (keep (λ x. same collate x.source source) d.tables.finding)
              else 0)
            + (if is_done b
                then length (keep (λ x. same collate x.source source) d.tables.seen)
                else 0),
        none,
      ))
      × (r.1.tables.finding ≡ keep (λ x. not (same collate x.source source)) d.tables.finding)
      × (r.1.tables.seen ≡ keep (λ x. not (same collate x.source source)) d.tables.seen)
      × (r.1.tables.claim ≡ d.tables.claim)
unfolding purge_source purge_rows attempt commit purge_seen purge_finding
purge_source_count collate quoted source d a b rest h =
    let of_source : Text → Bool = λ t. same collate t source in
    let fs = d.tables.finding in
    let ss = d.tables.seen in
    rw h (
      ap₂ (λ n m. (n + m, none))
          (affected-is_done a (length fs - length (keep (λ x. not (of_source x.source)) fs))
            ∙ ap (λ n. if is_done a then n else 0) (length-keep (λ x. of_source x.source) fs))
          (affected-is_done b (length ss - length (keep (λ x. not (of_source x.source)) ss))
            ∙ ap (λ n. if is_done b then n else 0) (length-keep (λ x. of_source x.source) ss)),
      refl,
      refl,
      refl,
    )
