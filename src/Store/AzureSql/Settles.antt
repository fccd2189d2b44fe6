-- ===== src/Store/AzureSql/Settles.antt =====
-- A transaction does all or nothing, and what it reports.
use if_sos_beacon.Base.{Text, ◌≡◌, refl, ◌⊎◌, inl, inr, Option, none, some, ℕ, ◌+◌, codes, ◌++◌}
use mathlib.Core.Path.{subst}
use if_sos_beacon.Base.Errors.{Error, wrap}
use if_sos_beacon.Core.{Finding}
use if_sos_beacon.Store.AzureSql.Statements.{
  Tables, seen_insert, finding_upsert, purge_seen, purge_finding, claim_upsert,
}
use if_sos_beacon.Store.AzureSql.{
  Outcome, done, failed, lost, Database, FindingCodec, consult, next_outcome, exec, attempt, commit,
  mark_seen, record_data, claim, purge_rows, purge_source, purge_failed, affected,
}

-- No error, and the new tables; or an error, and the old tables or the new ones.
abbrev pub Settles : Tables → Tables → Option Error → Tables → Type 0
Settles t t' r u = ((r ≡ none) × (u ≡ t')) ⊎ ((e : Error) × (r ≡ some e) × ((u ≡ t) ⊎ (u ≡ t')))

exec-Settles :
    (what : Text) (t : Tables) (d : Database)
    → Settles d.tables t (exec what t d).0 (exec what t d).1.tables
unfolding exec
exec-Settles what t d = by_outcome (next_outcome d.outcomes) refl
  where
    by_outcome :
        (o : Outcome)
        → next_outcome d.outcomes ≡ o
        → Settles d.tables t (exec what t d).0 (exec what t d).1.tables
    by_outcome done h = rw (h, exec) (inl (refl, refl))
    by_outcome (failed e) h = rw (h, exec) (inr (wrap what e, refl, inl refl))
    by_outcome (lost e) h = rw (h, exec) (inr (wrap what e, refl, inr refl))

-- `report` reads the error off what an operation returns.
module _ {A : Type 0} (report : A → Option Error) (fail : Error → A)
    (fails : (e : Error) → report (fail e) ≡ some e) (t t' : Tables) where
  attempt-Settles :
      (what : Text) (next : Database → A × Database) (d : Database)
      → d.tables ≡ t
      → ((d' : Database) → d'.tables ≡ t → Settles t t' (report (next d').0) (next d').1.tables)
      → Settles t t' (report (attempt what fail next d).0) (attempt what fail next d).1.tables
  unfolding attempt
  attempt-Settles what next d same rest = by_outcome (next_outcome d.outcomes) refl
    where
      by_outcome :
          (o : Outcome)
          → next_outcome d.outcomes ≡ o
          → Settles t t' (report (attempt what fail next d).0) (attempt what fail next d).1.tables
      by_outcome done h = rw (h, attempt) (rest (consult d).1 same)
      by_outcome (failed e) h = rw (h, attempt) (inr (wrap what e, fails (wrap what e), inl same))
      by_outcome (lost e) h = rw (h, attempt) (inr (wrap what e, fails (wrap what e), inl same))

  commit-Settles :
      (what : Text) (success : A) (d : Database)
      → report success ≡ none
      → d.tables ≡ t
      → Settles t t'
          (report (commit what fail success t' d).0)
          (commit what fail success t' d).1.tables
  unfolding commit
  commit-Settles what success d fine same = by_outcome (next_outcome d.outcomes) refl
    where
      by_outcome :
          (o : Outcome)
          → next_outcome d.outcomes ≡ o
          → Settles t t'
              (report (commit what fail success t' d).0)
              (commit what fail success t' d).1.tables
      by_outcome done h = rw (h, commit) (inl (fine, refl))
      by_outcome (failed e) h = rw (h, commit) (inr (wrap what e, fails (wrap what e), inl same))
      by_outcome (lost e) h = rw (h, commit) (inr (wrap what e, fails (wrap what e), inr refl))

pub mark_seen-Settles :
    (collate : Text → Text) (b s i : Text) (d : Database)
    → Settles d.tables
        (seen_insert collate b s i d.tables)
        (mark_seen collate b s i d).0
        (mark_seen collate b s i d).1.tables
unfolding mark_seen
mark_seen-Settles collate b s i d = exec-Settles _ _ d

pub claim-Settles :
    (collate : Text → Text) (f who : Text) (d : Database)
    → Settles d.tables
        (claim_upsert collate f who d.tables)
        (claim collate f who d).0
        (claim collate f who d).1.tables
unfolding claim
claim-Settles collate f who d = exec-Settles _ _ d

-- The tables behind Record: the finding's row, and the seen row.
abbrev pub recorded_tables : (Text → Text) → Finding → Text → Tables → Tables
recorded_tables collate f text t =
    seen_insert collate f.beacon f.signal.source f.signal.id
      (finding_upsert collate f.beacon f.signal.source f.signal.id text t)

pub record_data-Settles :
    (collate : Text → Text) (c : FindingCodec) (f : Finding) (text : Text) (d : Database)
    → Settles d.tables
        (recorded_tables collate f text d.tables)
        (record_data collate c f text d).0
        (record_data collate c f text d).1.tables
unfolding record_data
record_data-Settles collate c f text d =
    let t = d.tables in
    let t' = recorded_tables collate f text t in
    let report : Option Error → Option Error = λ r. r in
    let step = attempt-Settles report some (λ e. refl) t t' in
    let finish : Database → Option Error × Database =
      commit (codes "azuresql: commit") some none t' in
    let mark : Database → Option Error × Database =
      attempt (codes "azuresql: mark seen") some finish in
    let upsert : Database → Option Error × Database =
      attempt (codes "azuresql: upsert finding") some mark in
    step (codes "azuresql: begin") upsert d refl (λ d1 h1.
      step (codes "azuresql: upsert finding") mark d1 h1 (λ d2 h2.
        step (codes "azuresql: mark seen") finish d2 h2 (λ d3 h3.
          commit-Settles report some (λ e. refl) t t' (codes "azuresql: commit") none d3 refl h3)))

-- The tables behind a purge.
abbrev pub purged_tables : (Text → Text) → Text → Tables → Tables
purged_tables collate source t = (purge_seen collate source (purge_finding collate source t).1).1

purge_rows-Settles :
    (collate : Text → Text) (source what : Text) (d : Database)
    → Settles d.tables
        (purged_tables collate source d.tables)
        (purge_rows collate source what d).0.1
        (purge_rows collate source what d).1.tables
unfolding purge_rows
purge_rows-Settles collate source what d =
    let t = d.tables in
    let t' = purged_tables collate source t in
    let report : ℕ × Option Error → Option Error = λ r. r.1 in
    let n = (purge_finding collate source t).0 in
    let m = (purge_seen collate source (purge_finding collate source t).1).0 in
    let fail = purge_failed in
    let count : Database → Database → ℕ × Option Error =
      λ d1 d2. (affected (consult d1).0 n + affected (consult d2).0 m, none) in
    let finish : Database → Database → (ℕ × Option Error) × Database =
      λ d1 d2. commit (codes "azuresql: purge commit") fail (count d1 d2) t' (consult d2).1 in
    let second : Database → (ℕ × Option Error) × Database =
      λ d1. attempt what fail (finish d1) (consult d1).1 in
    attempt-Settles report fail (λ e. refl) t t' what second d refl
      (λ d1 h1.
        attempt-Settles report fail (λ e. refl) t t' what (finish d1) (consult d1).1 h1
          (λ d2 h2.
            commit-Settles report fail (λ e. refl) t t' (codes "azuresql: purge commit")
              (count d1 d2) (consult d2).1 refl h2))

pub purge_source-Settles :
    (collate quoted : Text → Text) (source : Text) (d : Database)
    → Settles d.tables
        (purged_tables collate source d.tables)
        (purge_source collate quoted source d).0.1
        (purge_source collate quoted source d).1.tables
unfolding purge_source
purge_source-Settles collate quoted source d =
    let t = d.tables in
    let t' = purged_tables collate source t in
    let report : ℕ × Option Error → Option Error = λ r. r.1 in
    let what = codes "azuresql: purge " ++ quoted source in
    attempt-Settles report purge_failed (λ e. refl) t t' (codes "azuresql: purge begin")
      (purge_rows collate source what) d refl
      (λ d1 h1.
        subst
          (λ u.
            Settles u (purged_tables collate source u) (purge_rows collate source what d1).0.1
              (purge_rows collate source what d1).1.tables)
          h1 (purge_rows-Settles collate source what d1))
