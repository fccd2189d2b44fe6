-- ===== src/Store/AzureSql.antt =====
-- internal/store/azuresql.go: the store in three tables. The statements are functions on the tables,
-- under the columns' collation; package database/sql and the server behind it answer each call with
-- one outcome. encoding/json is the parameter `FindingCodec`.
pub mod Statements
pub mod Claims
pub mod Views
pub mod Settles
pub mod Digest
pub mod Effects
pub mod Contract
pub mod Counts
pub mod Open
use if_sos_beacon.Base.{
  Text, codes, ◌=ᵗ◌, ℕ, ◌+◌, Bool, true, false, ◌||◌, Option, none, some, List, [], ◌∷◌, ◌++◌,
  if◌then◌else◌,
}
use if_sos_beacon.Base.Errors.{Error, message, wrap, Result, ok, err}
use if_sos_beacon.Core.{Finding, Store}
use if_sos_beacon.Config.{StoreConfig}
use if_sos_beacon.Store.AzureSql.Statements.{
  Tables, seen_select, seen_insert, finding_upsert, pending_select, claim_upsert, purge_seen,
  purge_finding,
}

-- What a call of the driver comes to. A call that is `lost` was executed, and its answer never came.
pub data Outcome : Type 0 where
  done : Outcome
  failed : Error → Outcome
  lost : Error → Outcome

pub record Database : Type 0 where
  pub tables : Tables
  pub outcomes : List Outcome

pub record FindingCodec : Type 0 where
  pub marshal : Finding → Result Text
  pub unmarshal : Text → Result Finding

abbrev pub next_outcome : List Outcome → Outcome
next_outcome [] = done
next_outcome (o ∷ os) = o

abbrev pub later_outcomes : List Outcome → List Outcome
later_outcomes [] = []
later_outcomes (o ∷ os) = os

-- The outcome of the next call, and the database behind it.
abbrev pub consult : Database → Outcome × Database
consult d = (next_outcome d.outcomes, record d { outcomes = later_outcomes d.outcomes })

-- A statement outside a transaction, which is one of its own: its tables if it was executed.
exec : Text → Tables → Database → Option Error × Database
exec what t d = elim (consult d).0 [
  | done ↦ (none, record (consult d).1 { tables = t })
  | failed e ↦ (some (wrap what e), (consult d).1)
  | lost e ↦ (some (wrap what e), record (consult d).1 { tables = t })
]

-- A call that changes nothing: BeginTx, and a statement inside a transaction, whose effects stay with
-- the transaction. The continuation runs if it succeeds; if not, the transaction is rolled back.
attempt : {A : Type 0} → Text → (Error → A) → (Database → A × Database) → Database → A × Database
attempt what fail next d = elim (consult d).0 [
  | done ↦ next (consult d).1
  | failed e ↦ (fail (wrap what e), (consult d).1)
  | lost e ↦ (fail (wrap what e), (consult d).1)
]

-- tx.Commit
commit : {A : Type 0} → Text → (Error → A) → A → Tables → Database → A × Database
commit what fail success t d = elim (consult d).0 [
  | done ↦ (success, record (consult d).1 { tables = t })
  | failed e ↦ (fail (wrap what e), (consult d).1)
  | lost e ↦ (fail (wrap what e), record (consult d).1 { tables = t })
]

-- RowsAffected, which may be refused: the rows are not counted then.
abbrev affected : Outcome → ℕ → ℕ
affected done n = n
affected (failed e) n = 0
affected (lost e) n = 0

abbrev purge_failed : Error → ℕ × Option Error
purge_failed e = (0, some e)

module _ (collate : Text → Text) where
  unfoldable pub seen : Text → Text → Text → Database → Result Bool × Database
  seen b s i d = elim (consult d).0 [
    | done ↦ (ok (seen_select collate b s i d.tables), (consult d).1)
    | failed e ↦ (err (wrap (codes "azuresql: seen") e), (consult d).1)
    | lost e ↦ (err (wrap (codes "azuresql: seen") e), (consult d).1)
  ]

  unfoldable pub mark_seen : Text → Text → Text → Database → Option Error × Database
  unfolding exec
  mark_seen b s i d = exec (codes "azuresql: mark seen") (seen_insert collate b s i d.tables) d

  module _ (c : FindingCodec) where
    -- The transaction of Record.
    pub record_data : Finding → Text → Database → Option Error × Database
    unfolding attempt commit
    record_data f text d =
        let t1 = finding_upsert collate f.beacon f.signal.source f.signal.id text d.tables in
        let t2 = seen_insert collate f.beacon f.signal.source f.signal.id t1 in
        attempt (codes "azuresql: begin") some
          (attempt (codes "azuresql: upsert finding") some (
            attempt (codes "azuresql: mark seen") some
              (commit (codes "azuresql: commit") some none t2)))
          d

    unfoldable pub record_finding : Finding → Database → Option Error × Database
    unfolding record_data
    record_finding f d = elim (c.marshal f) [
      | err e ↦ (some (wrap (codes "azuresql: marshal finding") e), d)
      | ok text ↦ record_data f text d
    ]

    -- The loop over the rows: rows.Next, Scan and the decoding. An error of Next is that of rows.Err.
    decode_rows : List Text → Database → Result (List Finding) × Database
    decode_rows [] d = elim (consult d).0 [
      | done ↦ (ok [], (consult d).1)
      | failed e ↦ (err (wrap (codes "azuresql: iterate findings") e), (consult d).1)
      | lost e ↦ (err (wrap (codes "azuresql: iterate findings") e), (consult d).1)
    ]
    decode_rows (row ∷ rows) d =
        let d1 = (consult d).1 in
        let d2 = (consult d1).1 in
        let (rest, d') = decode_rows rows d2 in
        elim (consult d).0 [
          | failed e ↦ (err (wrap (codes "azuresql: iterate findings") e), d1)
          | lost e ↦ (err (wrap (codes "azuresql: iterate findings") e), d1)
          | done ↦ elim (consult d1).0 [
            | failed e ↦ (err (wrap (codes "azuresql: scan finding") e), d2)
            | lost e ↦ (err (wrap (codes "azuresql: scan finding") e), d2)
            | done ↦ elim (c.unmarshal row) [
              | err e ↦ (err (wrap (codes "azuresql: unmarshal finding") e), d2)
              | ok f ↦ elim rest [ err e ↦ (err e, d') | ok fs ↦ (ok (f ∷ fs), d') ]
            ]
          ]
        ]

    unfoldable pub pending_digest : Text → Database → Result (List Finding) × Database
    unfolding decode_rows
    pending_digest b d = elim (consult d).0 [
      | done ↦ decode_rows (pending_select collate b d.tables) (consult d).1
      | failed e ↦ (err (wrap (codes "azuresql: pending digest") e), (consult d).1)
      | lost e ↦ (err (wrap (codes "azuresql: pending digest") e), (consult d).1)
    ]

  unfoldable pub claim : Text → Text → Database → Option Error × Database
  unfolding exec
  claim finding_id claimant d =
      exec (codes "azuresql: claim") (claim_upsert collate finding_id claimant d.tables) d

  -- The two deletions, each with its count, and the commit.
  purge_rows : Text → Text → Database → (ℕ × Option Error) × Database
  unfolding attempt commit
  purge_rows source what d =
      let (n, t1) = purge_finding collate source d.tables in
      let (m, t2) = purge_seen collate source t1 in
      attempt what purge_failed
        (λ d1.
          attempt what purge_failed
            (λ d2.
              commit (codes "azuresql: purge commit") purge_failed
                (affected (consult d1).0 n + affected (consult d2).0 m, none) t2 (consult d2).1)
            (consult d1).1)
        d

  -- `quoted` is the verb %q.
  unfoldable pub purge_source : (Text → Text) → Text → Database → (ℕ × Option Error) × Database
  unfolding purge_rows
  purge_source quoted source d =
      attempt (codes "azuresql: purge begin") purge_failed
        (purge_rows source (codes "azuresql: purge " ++ quoted source)) d

-- s.db.Close()
unfoldable pub close : Database → Option Error × Database
close d = elim (consult d).0 [
  | done ↦ (none, (consult d).1)
  | failed e ↦ (some e, (consult d).1)
  | lost e ↦ (some e, (consult d).1)
]

-- AzureSQL as a core.Store.
unfoldable pub azure_store : (Text → Text) → FindingCodec → (Text → Text) → Store Database
unfolding close
azure_store collate c quoted = record {
  deduper = record { seen = seen collate; mark_seen = mark_seen collate };
  recorder = record { record_finding = record_finding collate c };
  ledger = record { claim = claim collate; pending_digest = pending_digest collate c };
  purger = record { purge_source = purge_source collate quoted };
  close = close;
}

abbrev is_empty : Text → Bool
is_empty [] = true
is_empty (c ∷ s) = false

-- `env` is the value of SOS_STORE_DSN.
unfoldable pub resolve_dsn : Text → StoreConfig → Result Text
resolve_dsn env cfg =
    if is_empty env
    then if is_empty cfg.dsn
      then if is_empty cfg.server || is_empty cfg.database
        then err (
            message
              (codes "azuresql: need a dsn, or server+database, or the SOS_STORE_DSN env var"))
        else ok (
            codes "server="
            ++ cfg.server
            ++ codes ";database="
            ++ cfg.database
            ++ codes ";fedauth=ActiveDirectoryDefault")
      else ok cfg.dsn
    else ok env
