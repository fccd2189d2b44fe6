-- ===== src/Store/AzureSql/Claims.antt =====
-- What the statement of Claim does to the claimants.
use if_sos_beacon.Base.{
  Text, =ᵗ_iff, ◌≡◌, refl, Bool, true, false, Bool-cases, Option, none, some, List, [], ◌∷◌, ◌++◌,
  arith, any, inl, inr, if◌then◌else◌,
}
use if_sos_beacon.Store.AzureSql.Statements.{Tables, ClaimRow, same, update_claim, claim_upsert}

module _ (collate : Text → Text) where
  -- The claimant in the first row of a finding.
  pub claimant_of : Text → List ClaimRow → Option Text
  claimant_of g [] = none
  claimant_of g (r ∷ rs) =
      let rest = claimant_of g rs in if same collate r.finding_id g then some r.claimant else rest

  abbrev is_claim_of : Text → ClaimRow → Bool
  is_claim_of f r = same collate r.finding_id f

  same_left : (x f g : Text) → same collate x f ≡ true → same collate x g ≡ same collate f g
  same_left x f g h =
      let e : collate x ≡ collate f = ground (arith, =ᵗ_iff (collate x) (collate f)) in rw e refl

  -- The rows of other findings keep their claimants.
  update_claim_other :
      (f who g : Text) (rs : List ClaimRow)
      → same collate f g ≡ false
      → claimant_of g (update_claim collate f who rs) ≡ claimant_of g rs
  unfolding update_claim claimant_of
  update_claim_other f who g [] h = refl
  update_claim_other f who g (r ∷ rs) h =
      let rest = update_claim_other f who g rs h in
      elim (Bool-cases (same collate r.finding_id f)) [
        | inl own ↦ rw (own, same_left r.finding_id f g own, h) rest
        | inr other ↦ rw (other, rest) refl
      ]

  update_claim_own :
      (f who g : Text) (rs : List ClaimRow)
      → same collate f g ≡ true
      → any (is_claim_of f) rs ≡ true
      → claimant_of g (update_claim collate f who rs) ≡ some who
  unfolding update_claim claimant_of
  update_claim_own f who g [] h held = absurd (ground arith)
  update_claim_own f who g (r ∷ rs) h held = elim (Bool-cases (same collate r.finding_id f)) [
    | inl own ↦ rw (own, same_left r.finding_id f g own, h) refl
    | inr other ↦
        let turned : same collate r.finding_id g ≡ false = ground (
          arith,
          =ᵗ_iff (collate f) (collate g),
          =ᵗ_iff (collate r.finding_id) (collate f),
          =ᵗ_iff (collate r.finding_id) (collate g),
        ) in
        rw (other, turned) (update_claim_own f who g rs h (rw other at held))
  ]

  append_claim_view :
      (f who g : Text) (rs : List ClaimRow)
      → any (is_claim_of f) rs ≡ false
      → claimant_of g (rs ++ record { finding_id = f; claimant = who } ∷ [])
        ≡ (if same collate f g then some who else claimant_of g rs)
  unfolding claimant_of
  append_claim_view f who g [] h = refl
  append_claim_view f who g (r ∷ rs) h = ground (
    arith,
    same_left r.finding_id g f,
    =ᵗ_iff (collate f) (collate g),
    =ᵗ_iff (collate r.finding_id) (collate f),
    =ᵗ_iff (collate r.finding_id) (collate g),
    append_claim_view f who g rs,
  )

  pub claim_upsert-claimant_of :
      (f who g : Text) (t : Tables)
      → claimant_of g (claim_upsert collate f who t).claim
        ≡ (if same collate f g then some who else claimant_of g t.claim)
  unfolding claim_upsert
  claim_upsert-claimant_of f who g t = elim (Bool-cases (any (is_claim_of f) t.claim)) [
    | inr new ↦ rw new (append_claim_view f who g t.claim new)
    | inl old ↦ elim (Bool-cases (same collate f g)) [
      | inl own ↦ rw (old, own) (update_claim_own f who g t.claim own old)
      | inr other ↦ rw (old, other) (update_claim_other f who g t.claim other)
    ]
  ]
