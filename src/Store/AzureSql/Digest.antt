-- ===== src/Store/AzureSql/Digest.antt =====
-- What PendingDigest answers: a finding for each row of the beacon.
use if_sos_beacon.Base.{
  Text, =ᵗ_iff, =ᵗ_refl, ◌≡◌, refl, sym, ◌∙◌, true, Bool-cases, List, [], ◌∷◌, arith, All, All-keep,
  All-append, any, keep, map, inl, inr,
}
use if_sos_beacon.Base.Errors.{Result-cases, ok}
use if_sos_beacon.Core.{Finding}
use if_sos_beacon.Store.Contract.{is_of, one_row}
use if_sos_beacon.Store.AzureSql.Statements.{
  Tables, FindingRow, same, finding_at, update_finding, finding_upsert, pending_select,
}
use if_sos_beacon.Store.AzureSql.{Database, FindingCodec, consult, decode_rows, pending_digest}

-- encoding/json reads a finding's three names back from the text that it wrote.
abbrev pub KeepsNames : FindingCodec → Type 0
KeepsNames c =
    (f : Finding) (text : Text)
    → c.marshal f ≡ ok text
    → (g : Finding) × (c.unmarshal text ≡ ok g)
      × (g.beacon ≡ f.beacon)
      × (g.signal.source ≡ f.signal.source)
      × (g.signal.id ≡ f.signal.id)

module _ (collate : Text → Text) (c : FindingCodec) where
  -- The text of a row holds a finding of that row.
  abbrev pub Decodes : FindingRow → Type 0
  Decodes r =
      (f : Finding) × (c.unmarshal r.text ≡ ok f)
      × (is_of (same collate) r.beacon r.source r.id f ≡ true)

  abbrev pub IsSound : Tables → Type 0
  IsSound t = All Decodes t.finding

  row_eq_sym :
      (b s i b' s' i' x y z : Text)
      → one_row (same collate) x y z b s i ≡ true
      → one_row (same collate) x y z b' s' i' ≡ one_row (same collate) b s i b' s' i'
  row_eq_sym b s i b' s' i' x y z h =
      let ex : collate x ≡ collate b = ground (arith, =ᵗ_iff (collate x) (collate b)) in
      let ey : collate y ≡ collate s = ground (arith, =ᵗ_iff (collate y) (collate s)) in
      let ez : collate z ≡ collate i = ground (arith, =ᵗ_iff (collate z) (collate i)) in
      rw (ex, ey, ez) refl

  row_refl : (x y z : Text) → one_row (same collate) x y z x y z ≡ true
  row_refl x y z = ground (arith, =ᵗ_refl (collate x), =ᵗ_refl (collate y), =ᵗ_refl (collate z))

  decode_rows-tables :
      (rows : List Text) (d : Database) → (decode_rows collate c rows d).1.tables ≡ d.tables
  unfolding decode_rows
  decode_rows-tables [] d = ground arith
  decode_rows-tables (row ∷ rows) d =
      ground (arith, decode_rows-tables rows (consult (consult d).1).1)

  -- A digest that is answered has decoded every row.
  decode_rows-cons :
      (row : Text) (rows : List Text) (d : Database) (f : Finding) (fs : List Finding)
      → c.unmarshal row ≡ ok f
      → (decode_rows collate c (row ∷ rows) d).0 ≡ ok fs
      → (gs : List Finding) × (fs ≡ f ∷ gs)
        × ((decode_rows collate c rows (consult (consult d).1).1).0 ≡ ok gs)
  unfolding decode_rows
  decode_rows-cons row rows d f fs e h =
      elim (Result-cases (decode_rows collate c rows (consult (consult d).1).1).0) [
        | inl (gs, k) ↦ (gs, ground (arith, e, k), k)
        | inr (x, k) ↦ absurd (ground (arith, e, k))
      ]

  decode_rows_true :
      (rs : List FindingRow) (d : Database) (fs : List Finding) (b s i : Text)
      → All Decodes rs
      → (decode_rows collate c (map (λ r. r.text) rs) d).0 ≡ ok fs
      → any (is_of (same collate) b s i) fs ≡ any (finding_at collate b s i) rs
  decode_rows_true [] d fs b s i sound h = unfold decode_rows in ground arith
  decode_rows_true (r ∷ rs) d fs b s i ((f, e, own), sound) h =
      let (gs, parts, k) = decode_rows-cons r.text (map (λ r. r.text) rs) d f fs e h in
      let rest = decode_rows_true rs (consult (consult d).1).1 gs b s i sound k in
      let one = row_eq_sym r.beacon r.source r.id b s i f.beacon f.signal.source f.signal.id own in
      rw (parts, one, rest) refl

  decode_rows-beacon :
      (b : Text) (rs : List FindingRow) (d : Database) (fs : List Finding)
      → All Decodes rs
      → All (λ r. same collate r.beacon b ≡ true) rs
      → (decode_rows collate c (map (λ r. r.text) rs) d).0 ≡ ok fs
      → All (λ f. same collate f.beacon b ≡ true) fs
  decode_rows-beacon b [] d fs sound own h =
      let empty : fs ≡ [] = unfold decode_rows in ground arith in rw empty tt
  decode_rows-beacon b (r ∷ rs) d fs ((f, e, at), sound) (one, own) h =
      let (gs, parts, k) = decode_rows-cons r.text (map (λ r. r.text) rs) d f fs e h in
      let here : same collate f.beacon b ≡ true = ground (
        arith,
        =ᵗ_iff (collate f.beacon) (collate r.beacon),
        =ᵗ_iff (collate r.beacon) (collate b),
        =ᵗ_iff (collate f.beacon) (collate b),
      ) in
      rw parts (here, decode_rows-beacon b rs (consult (consult d).1).1 gs sound own k)

  of_beacon-All :
      (b : Text) (rs : List FindingRow)
      → All (λ r. same collate r.beacon b ≡ true) (keep (λ r. same collate r.beacon b) rs)
  unfolding keep
  of_beacon-All b [] = tt
  of_beacon-All b (r ∷ rs) = elim (Bool-cases (same collate r.beacon b)) [
    | inl own ↦ rw own (own, of_beacon-All b rs)
    | inr other ↦ rw other (of_beacon-All b rs)
  ]

  any-of_beacon :
      (b s i : Text) (rs : List FindingRow)
      → any (finding_at collate b s i) (keep (λ r. same collate r.beacon b) rs)
        ≡ any (finding_at collate b s i) rs
  unfolding keep
  any-of_beacon b s i [] = refl
  any-of_beacon b s i (r ∷ rs) = ground (arith, any-of_beacon b s i rs)

  pub pending_digest-tables :
      (b : Text) (d : Database) → (pending_digest collate c b d).1.tables ≡ d.tables
  unfolding pending_digest
  pending_digest-tables b d =
      ground (arith, decode_rows-tables (pending_select collate b d.tables) (consult d).1)

  -- An answered digest holds a finding for exactly the beacon's rows.
  pub pending_digest_true :
      (b s i : Text) (d : Database) (fs : List Finding)
      → IsSound d.tables
      → (pending_digest collate c b d).0 ≡ ok fs
      → any (is_of (same collate) b s i) fs ≡ any (finding_at collate b s i) d.tables.finding
  unfolding pending_digest pending_select
  pending_digest_true b s i d fs sound h =
      let rs = keep (λ r. same collate r.beacon b) d.tables.finding in
      let answered : (decode_rows collate c (map (λ r. r.text) rs) (consult d).1).0 ≡ ok fs =
        ground arith in
      decode_rows_true rs (consult d).1 fs b s i
        (All-keep Decodes (λ r. same collate r.beacon b) d.tables.finding sound) answered
      ∙ any-of_beacon b s i d.tables.finding

  -- An answered digest holds findings of the beacon alone.
  pub pending_digest-beacon :
      (b : Text) (d : Database) (fs : List Finding)
      → IsSound d.tables
      → (pending_digest collate c b d).0 ≡ ok fs
      → All (λ f. same collate f.beacon b ≡ true) fs
  unfolding pending_digest pending_select
  pending_digest-beacon b d fs sound h =
      let rs = keep (λ r. same collate r.beacon b) d.tables.finding in
      let answered : (decode_rows collate c (map (λ r. r.text) rs) (consult d).1).0 ≡ ok fs =
        ground arith in
      decode_rows-beacon b rs (consult d).1 fs
        (All-keep Decodes (λ r. same collate r.beacon b) d.tables.finding sound)
        (of_beacon-All b d.tables.finding) answered

  -- A finding of other letters stands at the same row.
  Decodes-at :
      (f : Finding) (text : Text) (r : FindingRow)
      → KeepsNames c
      → c.marshal f ≡ ok text
      → one_row (same collate) f.beacon f.signal.source f.signal.id r.beacon r.source r.id ≡ true
      → Decodes (record r { text = text })
  Decodes-at f text r keeps m h =
      let (g, u, eb, es, ei) = keeps f text m in (g, u, rw (eb, es, ei) h)

  update_finding_sound :
      (f : Finding) (text : Text) (rs : List FindingRow)
      → KeepsNames c
      → c.marshal f ≡ ok text
      → All Decodes rs
      → All Decodes (update_finding collate f.beacon f.signal.source f.signal.id text rs)
  unfolding update_finding
  update_finding_sound f text [] keeps m h = tt
  update_finding_sound f text (r ∷ rs) keeps m (h, hs) =
      let rest = update_finding_sound f text rs keeps m hs in
      elim (Bool-cases (finding_at collate f.beacon f.signal.source f.signal.id r)) [
        | inr other ↦ rw other (h, rest)
        | inl own ↦
            let turned =
              row_eq_sym f.beacon f.signal.source f.signal.id r.beacon r.source r.id r.beacon
                r.source r.id own in
            rw own
              (Decodes-at f text r keeps m (sym turned ∙ row_refl r.beacon r.source r.id), rest)
      ]

  pub finding_upsert-IsSound :
      (f : Finding) (text : Text) (t : Tables)
      → KeepsNames c
      → c.marshal f ≡ ok text
      → IsSound t
      → IsSound (finding_upsert collate f.beacon f.signal.source f.signal.id text t)
  unfolding finding_upsert
  finding_upsert-IsSound f text t keeps m h =
      elim (Bool-cases (any (finding_at collate f.beacon f.signal.source f.signal.id) t.finding)) [
        | inl old ↦ rw old (update_finding_sound f text t.finding keeps m h)
        | inr new ↦
            let r : FindingRow = record {
              beacon = f.beacon;
              source = f.signal.source;
              id = f.signal.id;
              text = text;
            } in
            rw new (
              All-append Decodes t.finding (r ∷ []) h
                (Decodes-at f text r keeps m (row_refl f.beacon f.signal.source f.signal.id), tt))
      ]
