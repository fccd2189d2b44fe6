-- ===== src/Store/File/Dedupe.antt =====
-- The dedupe set and the digest of the file store. The laws speak of the store in memory, so they
-- hold whether or not the save behind an operation succeeds.
use if_sos_beacon.Base.{
  Text, ◌=ᵗ◌, ◌≡◌, refl, true, ◌&&◌, List, [], ◌∷◌, ◌++◌, arith, Lacks, keep, keep-append,
  append-nil, if◌then◌else◌,
}
use if_sos_beacon.Base.Maps.{insert, lookup-insert}
use if_sos_beacon.Base.Errors.{ok}
use if_sos_beacon.Core.{Finding}
use if_sos_beacon.Store.Key.{colon, key, key-test}
use if_sos_beacon.Store.File.{
  Codec, World, seen, mark_seen, record_finding, pending_digest, save_locked,
}

-- After a row is inserted, its key reads true, and every other key as before.
lookup-answer :
    (c : Codec) (k : Text) (b s i : Text) (w w' : World)
    → w'.file.state.seen ≡ insert k true w.file.state.seen
    → (seen c b s i w').0 ≡ (if k =ᵗ key b s i then ok true else (seen c b s i w).0)
unfolding seen
lookup-answer c k b s i w w' e =
    ground (arith, e, lookup-insert k (key b s i) true w.file.state.seen)

-- Marking a row makes exactly that row seen: beacon, source and id have all three to agree. Beacon
-- and source names are taken to hold no colon. Whether the save succeeds makes no difference.
pub seen-mark_seen :
    (c : Codec) (b b' s s' i i' : Text) (w : World)
    → Lacks colon b
    → Lacks colon b'
    → Lacks colon s
    → Lacks colon s'
    → (seen c b' s' i' (mark_seen c b s i w).1).0
      ≡ (if b =ᵗ b' && (s =ᵗ s' && i =ᵗ i') then ok true else (seen c b' s' i' w).0)
unfolding mark_seen save_locked
seen-mark_seen c b b' s s' i i' w hb hb' hs hs' =
    rw (← key-test b b' s s' i i' hb hb' hs hs') (lookup-answer c (key b s i) b' s' i' w _ refl)

-- Recording a finding marks its signal's row as seen for the finding's beacon, and no other row.
-- Beacon and source names are taken to hold no colon.
pub seen-record_finding :
    (c : Codec) (f : Finding) (b s i : Text) (w : World)
    → Lacks colon f.beacon
    → Lacks colon b
    → Lacks colon f.signal.source
    → Lacks colon s
    → (seen c b s i (record_finding c f w).1).0 ≡ (
        if f.beacon =ᵗ b && (f.signal.source =ᵗ s && f.signal.id =ᵗ i)
        then ok true
        else (seen c b s i w).0)
unfolding record_finding save_locked
seen-record_finding c f b s i w hb hb' hs hs' =
    rw (← key-test f.beacon b f.signal.source s f.signal.id i hb hb' hs hs')
      (lookup-answer c (key f.beacon f.signal.source f.signal.id) b s i w _ refl)

-- The digest of a beacon is every finding recorded for it, in order: recording one appends it to the
-- digest of its own beacon, and to no other.
pub pending_digest-record_finding :
    (c : Codec) (f : Finding) (b : Text) (w : World)
    → (ds : List Finding) × ((pending_digest c b w).0 ≡ ok ds)
      × ((pending_digest c b (record_finding c f w).1).0
          ≡ ok (if f.beacon =ᵗ b then ds ++ f ∷ [] else ds))
unfolding pending_digest record_finding save_locked
pending_digest-record_finding c f b w = (
  keep (λ g. g.beacon =ᵗ b) w.file.state.findings,
  refl,
  rw keep-append
      (unfold keep in ground (arith, append-nil (keep (λ g. g.beacon =ᵗ b) w.file.state.findings))),
)
