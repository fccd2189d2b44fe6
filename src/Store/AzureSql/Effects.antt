-- ===== src/Store/AzureSql/Effects.antt =====
-- What each statement of the SQL store does to the view of the contract.
use if_sos_beacon.Base.{
  Text, ◌≡◌, refl, sym, ap, ◌∙◌, Bool, ◌||◌, ◌⊎◌, Option, arith, any, inl, inr,
}
use if_sos_beacon.Base.Errors.{Error, ok}
use if_sos_beacon.Core.{Finding}
use if_sos_beacon.Store.Contract.{View, Call, acknowledged, effect, Agrees, HasFailed, is_of}
use if_sos_beacon.Store.AzureSql.Statements.{
  Tables, same, seen_at, seen_select, seen_insert, finding_upsert, purge_seen, purge_finding,
  claim_upsert,
}
use if_sos_beacon.Store.AzureSql.Claims.{claimant_of, claim_upsert-claimant_of}
use if_sos_beacon.Store.AzureSql.{Database, seen}
use if_sos_beacon.Store.AzureSql.Views.{
  table_view, seen_insert-view, finding_upsert-view, purge_seen-view, purge_finding-view,
}
use if_sos_beacon.Store.AzureSql.Settles.{Settles, recorded_tables, purged_tables}

-- Any name: the collation decides which are one.
abbrev pub IsName : Text → Type 0
IsName t = Unit {0}

module _ (collate : Text → Text) where
  abbrev pub database_view : Database → View
  database_view d = table_view collate d.tables

  -- A settled transaction moves the view as the contract says.
  pub settled_moves :
      (v' : View) (t t' u : Tables) (r : Option Error)
      → Agrees (same collate) IsName v' (table_view collate t')
      → Settles t t' r u
      → Agrees (same collate) IsName v' (table_view collate u)
        ⊎ (HasFailed (acknowledged r)
            × Agrees (same collate) IsName (table_view collate t) (table_view collate u))
  settled_moves v' t t' u r h (inl (fine, e)) = inl (rw e h)
  settled_moves v' t t' u r h (inr (x, bad, inl e)) =
      inr (rw bad tt, rw e (λ b s i fb fs. (refl, refl), λ f. refl))
  settled_moves v' t t' u r h (inr (x, bad, inr e)) = inl (rw e h)

  pub seen_insert-finding :
      (b s i : Text) (t : Tables) → (seen_insert collate b s i t).finding ≡ t.finding
  unfolding seen_insert
  seen_insert-finding b s i t = ground arith

  pub finding_upsert-seen :
      (b s i text : Text) (t : Tables) → (finding_upsert collate b s i text t).seen ≡ t.seen
  unfolding finding_upsert
  finding_upsert-seen b s i text t = ground arith

  seen_insert-claim : (b s i : Text) (t : Tables) → (seen_insert collate b s i t).claim ≡ t.claim
  unfolding seen_insert
  seen_insert-claim b s i t = ground arith

  finding_upsert-claim :
      (b s i text : Text) (t : Tables) → (finding_upsert collate b s i text t).claim ≡ t.claim
  unfolding finding_upsert
  finding_upsert-claim b s i text t = ground arith

  pub claim_upsert-finding :
      (f who : Text) (t : Tables) → (claim_upsert collate f who t).finding ≡ t.finding
  unfolding claim_upsert
  claim_upsert-finding f who t = ground arith

  pub mark_view :
      (b s i : Text) (t : Tables)
      → Agrees
          (same collate)
          IsName
          (effect (same collate) (Call.mark_seen b s i) (table_view collate t))
          (table_view collate (seen_insert collate b s i t))
  mark_view b s i t = (
    λ b' s' i' fb fs.
        (sym (seen_insert-view collate b s i b' s' i' t), rw (seen_insert-finding b s i t) refl),
    λ g. rw (seen_insert-claim b s i t) refl,
  )

  pub record_view :
      (f : Finding) (text : Text) (t : Tables)
      → Agrees
          (same collate)
          IsName
          (effect (same collate) (Call.record_finding f) (table_view collate t))
          (table_view collate (recorded_tables collate f text t))
  record_view f text t =
      let t1 = finding_upsert collate f.beacon f.signal.source f.signal.id text t in
      let kept : (recorded_tables collate f text t).claim ≡ t.claim =
        seen_insert-claim f.beacon f.signal.source f.signal.id t1
        ∙ finding_upsert-claim f.beacon f.signal.source f.signal.id text t in
      (
        λ b s i _ _. (
          sym (
              seen_insert-view collate f.beacon f.signal.source f.signal.id b s i t1
              ∙ ap (λ rs. is_of (same collate) b s i f || any (seen_at collate b s i) rs)
                  (finding_upsert-seen f.beacon f.signal.source f.signal.id text t)),
          sym (
              rw (seen_insert-finding f.beacon f.signal.source f.signal.id t1)
                (finding_upsert-view collate f.beacon f.signal.source f.signal.id text b s i t)),
        ),
        λ g. sym (ap (claimant_of collate g) kept),
      )

  pub claim_view :
      (f who : Text) (t : Tables)
      → Agrees
          (same collate)
          IsName
          (effect (same collate) (Call.claim f who) (table_view collate t))
          (table_view collate (claim_upsert collate f who t))
  claim_view f who t = (
    λ b s i _ _. unfold claim_upsert in (ground arith, ground arith),
    λ g. sym (claim_upsert-claimant_of collate f who g t),
  )

  pub purge_view :
      (src : Text) (t : Tables)
      → Agrees
          (same collate)
          IsName
          (effect (same collate) (Call.purge_source src) (table_view collate t))
          (table_view collate (purged_tables collate src t))
  purge_view src t =
      let t1 = (purge_finding collate src t).1 in
      (
        λ b s i _ _. (
          sym (unfold purge_finding in purge_seen-view collate src b s i t1),
          sym (unfold purge_seen in purge_finding-view collate src b s i t),
        ),
        λ g. unfold purge_seen in unfold purge_finding in refl,
      )

  pub seen-tables : (b s i : Text) (d : Database) → (seen collate b s i d).1.tables ≡ d.tables
  unfolding seen
  seen-tables b s i d = ground arith

  pub seen_true :
      (b s i : Text) (d : Database) (x : Bool)
      → (seen collate b s i d).0 ≡ ok x
      → x ≡ any (seen_at collate b s i) d.tables.seen
  unfolding seen seen_select
  seen_true b s i d x h = ground arith
