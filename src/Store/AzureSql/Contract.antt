-- ===== src/Store/AzureSql/Contract.antt =====
-- The SQL store against the port's contract, whatever the collation and whatever the driver answers.
use if_sos_beacon.Base.{Text, refl, not, ◌⊎◌, Option, List, All, All-keep, inl, inr}
use if_sos_beacon.Base.Errors.{Error, Result-cases}
use if_sos_beacon.Store.Contract.{
  Call, Implements, perform, perform_all, effect, Agrees, HasFailed, IsFineCall, IsTrue, Explains,
}
use if_sos_beacon.Store.Contract.Refine.{perform_all-Explains}
use if_sos_beacon.Store.AzureSql.Statements.{
  Tables, same, finding_upsert, purge_seen, purge_finding,
}
use if_sos_beacon.Store.AzureSql.{
  Database, FindingCodec, seen, record_finding, pending_digest, azure_store,
}
use if_sos_beacon.Store.AzureSql.Settles.{
  Settles, mark_seen-Settles, claim-Settles, record_data-Settles, purge_source-Settles,
  purged_tables,
}
use if_sos_beacon.Store.AzureSql.Digest.{
  KeepsNames, IsSound, finding_upsert-IsSound, pending_digest_true, pending_digest-beacon,
  pending_digest-tables, Decodes,
}
use if_sos_beacon.Store.AzureSql.Effects.{
  IsName, database_view, settled_moves, seen_insert-finding, claim_upsert-finding, mark_view,
  record_view, claim_view, purge_view, seen-tables, seen_true,
}

module _ (collate : Text → Text) where
  module _ (c : FindingCodec) (quoted : Text → Text) (keeps : KeepsNames c) where
    abbrev pub IsSoundAt : Database → Type 0
    IsSoundAt d = IsSound collate c d.tables

    azure_moves :
        (call : Call) (d : Database)
        → Agrees
            (same collate)
            IsName
            (effect (same collate) call (database_view collate d))
            (database_view collate (perform (azure_store collate c quoted) call d).1)
          ⊎ (HasFailed (perform (azure_store collate c quoted) call d).0
              × Agrees
                  (same collate)
                  IsName
                  (database_view collate d)
                  (database_view collate (perform (azure_store collate c quoted) call d).1))
    unfolding azure_store record_finding
    azure_moves (Call.mark_seen b s i) d =
        settled_moves collate _ _ _ _ _ (mark_view collate b s i d.tables)
          (mark_seen-Settles collate b s i d)
    azure_moves (Call.record_finding f) d = elim (Result-cases (c.marshal f)) [
      | inl (text, e) ↦
          rw (e, record_finding)
            (settled_moves collate _ _ _ _ _ (record_view collate f text d.tables)
              (record_data-Settles collate c f text d))
      | inr (x, e) ↦ rw (e, record_finding) (inr (tt, (λ b s i fb fs. (refl, refl), λ g. refl)))
    ]
    azure_moves (Call.claim f who) d =
        settled_moves collate _ _ _ _ _ (claim_view collate f who d.tables)
          (claim-Settles collate f who d)
    azure_moves (Call.purge_source src) d =
        settled_moves collate _ _ _ _ _ (purge_view collate src d.tables)
          (purge_source-Settles collate quoted src d)
    azure_moves (Call.seen b s i) d = inl (
      λ b' s' i' fb fs. rw (seen-tables collate b s i d) (refl, refl),
      λ g. rw (seen-tables collate b s i d) refl,
    )
    azure_moves (Call.pending_digest b) d = inl (
      λ b' s i fb fs. rw (pending_digest-tables collate c b d) (refl, refl),
      λ g. rw (pending_digest-tables collate c b d) refl,
    )

    settled-IsSound :
        (t t' u : Tables) (r : Option Error)
        → IsSound collate c t
        → IsSound collate c t'
        → Settles t t' r u
        → IsSound collate c u
    settled-IsSound t t' u r h h' (inl (fine, e)) = rw e h'
    settled-IsSound t t' u r h h' (inr (x, bad, inl e)) = rw e h
    settled-IsSound t t' u r h h' (inr (x, bad, inr e)) = rw e h'

    purged-IsSound :
        (src : Text) (t : Tables)
        → IsSound collate c t
        → IsSound collate c (purged_tables collate src t)
    unfolding purge_finding purge_seen
    purged-IsSound src t h =
        All-keep (Decodes collate c) (λ r. not (same collate r.source src)) t.finding h

    azure_keeps :
        (call : Call) (d : Database)
        → IsSoundAt d
        → IsSoundAt (perform (azure_store collate c quoted) call d).1
    unfolding azure_store record_finding
    azure_keeps (Call.mark_seen b s i) d sound =
        settled-IsSound d.tables _ _ _ sound (rw (seen_insert-finding collate b s i d.tables) sound)
          (mark_seen-Settles collate b s i d)
    azure_keeps (Call.record_finding f) d sound = elim (Result-cases (c.marshal f)) [
      | inr (x, e) ↦ rw (e, record_finding) sound
      | inl (text, e) ↦
          let t1 = finding_upsert collate f.beacon f.signal.source f.signal.id text d.tables in
          let sound1 = finding_upsert-IsSound collate c f text d.tables keeps e sound in
          rw (e, record_finding)
            (settled-IsSound d.tables _ _ _ sound
              (rw (seen_insert-finding collate f.beacon f.signal.source f.signal.id t1) sound1)
              (record_data-Settles collate c f text d))
    ]
    azure_keeps (Call.claim f who) d sound =
        settled-IsSound d.tables _ _ _ sound
          (rw (claim_upsert-finding collate f who d.tables) sound) (claim-Settles collate f who d)
    azure_keeps (Call.purge_source src) d sound =
        settled-IsSound d.tables _ _ _ sound (purged-IsSound src d.tables sound)
          (purge_source-Settles collate quoted src d)
    azure_keeps (Call.seen b s i) d sound = rw (seen-tables collate b s i d) sound
    azure_keeps (Call.pending_digest b) d sound = rw (pending_digest-tables collate c b d) sound

    azure-IsTrue :
        (call : Call) (d : Database)
        → IsSoundAt d
        → IsTrue
            (same collate)
            IsName
            call
            (perform (azure_store collate c quoted) call d).0
            (database_view collate d)
    unfolding azure_store
    azure-IsTrue (Call.mark_seen b s i) d sound = tt
    azure-IsTrue (Call.record_finding f) d sound = tt
    azure-IsTrue (Call.claim f who) d sound = tt
    azure-IsTrue (Call.purge_source src) d sound = tt
    azure-IsTrue (Call.seen b s i) d sound = elim (Result-cases (seen collate b s i d).0) [
      | inl (x, e) ↦ rw e (seen_true collate b s i d x e)
      | inr (x, e) ↦ rw e tt
    ]
    azure-IsTrue (Call.pending_digest b) d sound =
        elim (Result-cases (pending_digest collate c b d).0) [
          | inl (fs, e) ↦ rw e (
            pending_digest-beacon collate c b d fs sound e,
            λ s i _. pending_digest_true collate c b s i d fs sound e,
          )
          | inr (x, e) ↦ rw e tt
        ]

    azure-Implements :
        Implements
          (same collate)
          IsName
          HasFailed
          (azure_store collate c quoted)
          (database_view collate)
          IsSoundAt
    azure-Implements = record {
      keeps = λ call d fine sound. azure_keeps call d sound;
      is_true = λ call d fine sound. azure-IsTrue call d sound;
      moves = λ call d fine sound. azure_moves call d;
    }

    -- The SQL store refines the contract: whatever calls are made, and whichever calls of the driver
    -- fail or lose their answer, the tables act as a set of seen rows, a set of recorded rows and the
    -- claims; a call that reported no error has taken its whole effect, and one that reported an error
    -- its whole effect or none. Each answer of Seen is true, and each answered digest holds findings of
    -- its beacon alone, with one for exactly its recorded rows. The count of a purge is not part of the
    -- contract. The texts in the table are taken to decode to findings of their rows at first, and the
    -- JSON library to keep a finding's names.
    pub azure_store-Explains :
        (calls : List Call) (d : Database)
        → All (IsFineCall (same collate) IsName) calls
        → IsSoundAt d
        → Explains
            (same collate)
            IsName
            HasFailed
            (perform_all (azure_store collate c quoted) calls d).0
            (database_view collate d)
            (database_view collate (perform_all (azure_store collate c quoted) calls d).1)
    azure_store-Explains calls d fine sound =
        perform_all-Explains (same collate) IsName HasFailed (azure_store collate c quoted)
          (database_view collate) IsSoundAt azure-Implements calls d fine sound
