-- ===== src/Store/AzureSql/Statements.antt =====
-- azuresql.go, the SQL statements; schema.sql, the tables. Two values of a column are equal if the
-- collation sends them to one text. The timestamps, which no statement reads, are left out.
use if_sos_beacon.Base.{
  Text, ◌=ᵗ◌, ℕ, ◌-◌, Bool, not, ◌&&◌, List, [], ◌∷◌, ◌++◌, any, keep, length, map, if◌then◌else◌,
}

pub record SeenRow : Type 0 where
  pub beacon : Text
  pub source : Text
  pub id : Text

pub record FindingRow : Type 0 where
  pub beacon : Text
  pub source : Text
  pub id : Text
  pub text : Text

pub record ClaimRow : Type 0 where
  pub finding_id : Text
  pub claimant : Text

pub record Tables : Type 0 where
  pub seen : List SeenRow
  pub finding : List FindingRow
  pub claim : List ClaimRow

-- A deletion: how many rows it affects, and the tables behind it.
module _ (collate : Text → Text) where
  abbrev pub same : Text → Text → Bool
  same a b = collate a =ᵗ collate b

  abbrev pub seen_at : Text → Text → Text → SeenRow → Bool
  seen_at b s i r = same r.beacon b && (same r.source s && same r.id i)

  abbrev pub finding_at : Text → Text → Text → FindingRow → Bool
  finding_at b s i r = same r.beacon b && (same r.source s && same r.id i)

  unfoldable pub seen_select : Text → Text → Text → Tables → Bool
  seen_select b s i t = any (seen_at b s i) t.seen

  unfoldable pub seen_insert : Text → Text → Text → Tables → Tables
  seen_insert b s i t =
      if any (seen_at b s i) t.seen
      then t
      else record t { seen = t.seen ++ record { beacon = b; source = s; id = i } ∷ [] }

  -- UPDATE: the rows at the key, given a new text.
  unfoldable pub update_finding : Text → Text → Text → Text → List FindingRow → List FindingRow
  update_finding b s i text [] = []
  update_finding b s i text (r ∷ rs) =
      (if finding_at b s i r then record r { text = text } else r) ∷ update_finding b s i text rs

  -- IF @@ROWCOUNT = 0 INSERT
  unfoldable pub finding_upsert : Text → Text → Text → Text → Tables → Tables
  unfolding update_finding
  finding_upsert b s i text t =
      if any (finding_at b s i) t.finding
      then record t { finding = update_finding b s i text t.finding }
      else record t {
        finding = t.finding ++ record { beacon = b; source = s; id = i; text = text } ∷ [];
      }

  -- The order of the rows that a SELECT answers is the server's; here it is the table's.
  unfoldable pub pending_select : Text → Tables → List Text
  pending_select b t = map (λ r. r.text) (keep (λ r. same r.beacon b) t.finding)

  unfoldable pub update_claim : Text → Text → List ClaimRow → List ClaimRow
  update_claim f who [] = []
  update_claim f who (r ∷ rs) =
      (if same r.finding_id f then record r { claimant = who } else r) ∷ update_claim f who rs

  unfoldable pub claim_upsert : Text → Text → Tables → Tables
  unfolding update_claim
  claim_upsert f who t =
      if any (λ r. same r.finding_id f) t.claim
      then record t { claim = update_claim f who t.claim }
      else record t { claim = t.claim ++ record { finding_id = f; claimant = who } ∷ [] }

  unfoldable pub purge_seen : Text → Tables → ℕ × Tables
  purge_seen source t =
      let left = keep (λ r. not (same r.source source)) t.seen in
      (length t.seen - length left, record t { seen = left })

  unfoldable pub purge_finding : Text → Tables → ℕ × Tables
  purge_finding source t =
      let left = keep (λ r. not (same r.source source)) t.finding in
      (length t.finding - length left, record t { finding = left })
