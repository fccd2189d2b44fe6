-- ===== src/Store/AzureSql/Views.antt =====
-- What the statements do to the two sets of rows that the tables stand for.
use if_sos_beacon.Base.{
  Text, =ᵗ_iff, ◌≡◌, refl, sym, ap, ◌∙◌, Bool, true, not, ◌&&◌, ◌||◌, Bool-cases, List, [], ◌∷◌,
  ◌++◌, arith, any, any-concat, keep, inl, inr, if◌then◌else◌,
}
use if_sos_beacon.Store.Contract.{View, one_row}
use if_sos_beacon.Store.AzureSql.Claims.{claimant_of}
use if_sos_beacon.Store.AzureSql.Statements.{
  Tables, SeenRow, FindingRow, same, seen_at, finding_at, seen_insert, update_finding,
  finding_upsert, purge_seen, purge_finding,
}

module _ (collate : Text → Text) where
  abbrev pub table_view : Tables → View
  table_view t = record {
    seen = λ b s i. any (seen_at collate b s i) t.seen;
    recorded = λ b s i. any (finding_at collate b s i) t.finding;
    claimed = λ f. claimant_of collate f t.claim;
  }

  pub row_eq :
      (b s i b' s' i' x y z : Text)
      → one_row (same collate) b s i b' s' i' ≡ true
      → one_row (same collate) x y z b s i ≡ one_row (same collate) x y z b' s' i'
  row_eq b s i b' s' i' x y z h =
      let eb : collate b ≡ collate b' = ground (arith, =ᵗ_iff (collate b) (collate b')) in
      let es : collate s ≡ collate s' = ground (arith, =ᵗ_iff (collate s) (collate s')) in
      let ei : collate i ≡ collate i' = ground (arith, =ᵗ_iff (collate i) (collate i')) in
      rw (eb, es, ei) refl

  -- Rows of any kind, by their three parts.
  module _ {R : Type 0} (beacon source id : R → Text) where
    abbrev at : Text → Text → Text → R → Bool
    at b s i r = one_row (same collate) (beacon r) (source r) (id r) b s i

    any-at-eq :
        (b s i b' s' i' : Text) (rs : List R)
        → one_row (same collate) b s i b' s' i' ≡ true
        → any (at b s i) rs ≡ any (at b' s' i') rs
    any-at-eq b s i b' s' i' [] h = refl
    any-at-eq b s i b' s' i' (r ∷ rs) h =
        ground (
          arith,
          row_eq b s i b' s' i' (beacon r) (source r) (id r) h,
          any-at-eq b s i b' s' i' rs h,
        )

    any-at-insert :
        (b s i b' s' i' : Text) (r : R) (rs : List R)
        → at b' s' i' r ≡ one_row (same collate) b s i b' s' i'
        → any (at b' s' i') (if any (at b s i) rs then rs else rs ++ r ∷ [])
          ≡ (one_row (same collate) b s i b' s' i' || any (at b' s' i') rs)
    any-at-insert b s i b' s' i' r rs h = elim (Bool-cases (any (at b s i) rs)) [
      | inl old ↦ elim (Bool-cases (one_row (same collate) b s i b' s' i')) [
        | inl one ↦ rw (old, one) (sym (any-at-eq b s i b' s' i' rs one) ∙ old)
        | inr two ↦ rw (old, two) refl
      ]
      | inr new ↦ rw new (any-concat (at b' s' i') rs r ∙ ap (λ x. x || any (at b' s' i') rs) h)
    ]

    any-at-purge :
        (src b s i : Text) (rs : List R)
        → any (at b s i) (keep (λ r. not (same collate (source r) src)) rs)
          ≡ (not (same collate s src) && any (at b s i) rs)
    unfolding keep
    any-at-purge src b s i [] = ground arith
    any-at-purge src b s i (r ∷ rs) = ground (
      arith,
      any-at-purge src b s i rs,
      =ᵗ_iff (collate (source r)) (collate s),
      =ᵗ_iff (collate (source r)) (collate src),
      =ᵗ_iff (collate s) (collate src),
    )

  pub seen_insert-view :
      (b s i b' s' i' : Text) (t : Tables)
      → any (seen_at collate b' s' i') (seen_insert collate b s i t).seen
        ≡ (one_row (same collate) b s i b' s' i' || any (seen_at collate b' s' i') t.seen)
  unfolding seen_insert
  seen_insert-view b s i b' s' i' t =
      let k =
        any-at-insert (λ r. r.beacon) (λ r. r.source) (λ r. r.id) b s i b' s' i'
          (let r : SeenRow = record { beacon = b; source = s; id = i } in r) t.seen refl in
      elim (Bool-cases (any (seen_at collate b s i) t.seen)) [
        | inl old ↦ rw old (rw old at k)
        | inr new ↦ rw new (rw new at k)
      ]

  update_finding-view :
      (b s i text b' s' i' : Text) (rs : List FindingRow)
      → any (finding_at collate b' s' i') (update_finding collate b s i text rs)
        ≡ any (finding_at collate b' s' i') rs
  unfolding update_finding
  update_finding-view b s i text b' s' i' [] = refl
  update_finding-view b s i text b' s' i' (r ∷ rs) =
      ground (arith, update_finding-view b s i text b' s' i' rs)

  pub finding_upsert-view :
      (b s i text b' s' i' : Text) (t : Tables)
      → any (finding_at collate b' s' i') (finding_upsert collate b s i text t).finding
        ≡ (one_row (same collate) b s i b' s' i' || any (finding_at collate b' s' i') t.finding)
  unfolding finding_upsert
  finding_upsert-view b s i text b' s' i' t =
      let k =
        any-at-insert (λ r. r.beacon) (λ r. r.source) (λ r. r.id) b s i b' s' i'
          (let r : FindingRow = record { beacon = b; source = s; id = i; text = text } in r)
          t.finding refl in
      elim (Bool-cases (any (finding_at collate b s i) t.finding)) [
        | inl old ↦ rw old (update_finding-view b s i text b' s' i' t.finding ∙ rw old at k)
        | inr new ↦ rw new (rw new at k)
      ]

  pub purge_seen-view :
      (src b s i : Text) (t : Tables)
      → any (seen_at collate b s i) (purge_seen collate src t).1.seen
        ≡ (not (same collate s src) && any (seen_at collate b s i) t.seen)
  unfolding purge_seen
  purge_seen-view src b s i t =
      any-at-purge (λ r. r.beacon) (λ r. r.source) (λ r. r.id) src b s i t.seen

  pub purge_finding-view :
      (src b s i : Text) (t : Tables)
      → any (finding_at collate b s i) (purge_finding collate src t).1.finding
        ≡ (not (same collate s src) && any (finding_at collate b s i) t.finding)
  unfolding purge_finding
  purge_finding-view src b s i t =
      any-at-purge (λ r. r.beacon) (λ r. r.source) (λ r. r.id) src b s i t.finding
