-- ===== src/Store/File/Contract.antt =====
-- The file store against the port's contract. The views are those of the store in memory.
use if_sos_beacon.Base.{
  Text, ◌=ᵗ◌, =ᵗ_iff, ◌≡◌, refl, sym, Bool, true, not, ◌&&◌, ◌||◌, List, [], ◌∷◌, arith, Lacks, All,
  any, any-concat, keep, inl, inr, Bool-cases,
}
use if_sos_beacon.Base.Maps.{lookup, lookup-insert, insert, Map, holds}
use if_sos_beacon.Base.Errors.{ok}
use if_sos_beacon.Core.{Finding}
use if_sos_beacon.Store.Key.{colon, key, key-test, is_from-key}
use if_sos_beacon.Store.Contract.{
  View, Call, Reply, Implements, perform, perform_all, effect, Agrees, IsFineCall, IsTrue, Explains,
  is_of, one_row,
}
use if_sos_beacon.Store.Contract.Refine.{perform_all-Explains}
use if_sos_beacon.Store.File.{
  Codec, World, file_store, seen, mark_seen, record_finding, claim, purge_source, pending_digest,
  save_locked,
}
use if_sos_beacon.Store.File.Purge.{lookup-purge_source, purge_source_rows}

abbrev pub file_view : World → View
file_view w = record {
  seen = λ b s i. holds w.file.state.seen (key b s i);
  recorded = λ b s i. any (is_of ◌=ᵗ◌ b s i) w.file.state.findings;
  claimed = λ f. lookup f w.file.state.claims;
}

-- A name without a colon.
abbrev pub IsPlain : Text → Type 0
IsPlain = Lacks colon

-- Each call takes its effect in memory, also if the save fails.
abbrev pub Never : Reply → Type 0
Never r = ⊥

abbrev Always : World → Type 0
Always w = Unit {0}

-- The findings of other sources hold a row exactly if all held it and it is of another source.
any-keep :
    (b s i src : Text) (fs : List Finding)
    → any (is_of ◌=ᵗ◌ b s i) (keep (λ f. not (f.signal.source =ᵗ src)) fs)
      ≡ (not (s =ᵗ src) && any (is_of ◌=ᵗ◌ b s i) fs)
unfolding keep
any-keep b s i src [] = ground arith
any-keep b s i src (f ∷ fs) = ground (
  arith,
  any-keep b s i src fs,
  =ᵗ_iff f.signal.source s,
  =ᵗ_iff f.signal.source src,
  =ᵗ_iff s src,
)

any-digest :
    (b s i : Text) (fs : List Finding)
    → any (is_of ◌=ᵗ◌ b s i) (keep (λ f. f.beacon =ᵗ b) fs) ≡ any (is_of ◌=ᵗ◌ b s i) fs
unfolding keep
any-digest b s i [] = refl
any-digest b s i (f ∷ fs) = ground (arith, any-digest b s i fs)

-- A digest holds findings of its beacon alone.
digest-All :
    (b : Text) (fs : List Finding)
    → All (λ f. (f.beacon =ᵗ b) ≡ true) (keep (λ f. f.beacon =ᵗ b) fs)
unfolding keep
digest-All b [] = tt
digest-All b (f ∷ fs) = elim (Bool-cases (f.beacon =ᵗ b)) [
  | inl own ↦ rw own (own, digest-All b fs)
  | inr other ↦ rw other (digest-All b fs)
]

holds-insert :
    (b s i b' s' i' : Text) (m : Map Bool)
    → IsPlain b
    → IsPlain b'
    → IsPlain s
    → IsPlain s'
    → (one_row ◌=ᵗ◌ b s i b' s' i' || holds m (key b' s' i'))
      ≡ holds (insert (key b s i) true m) (key b' s' i')
holds-insert b s i b' s' i' m hb hb' hs hs' =
    ground (
      arith,
      lookup-insert (key b s i) (key b' s' i') true m,
      key-test b b' s s' i i' hb hb' hs hs',
    )

module _ (c : Codec) where
  seen-holds :
      (b s i : Text) (w : World) → seen c b s i w ≡ (ok (holds w.file.state.seen (key b s i)), w)
  unfolding seen
  seen-holds b s i w = ground arith

  purge_view :
      (src : Text) (w : World) (b s i : Text)
      → IsPlain b
      → IsPlain s
      → (not (s =ᵗ src) && holds w.file.state.seen (key b s i))
        ≡ holds (purge_source c src w).1.file.state.seen (key b s i)
  purge_view src w b s i fb fs =
      let left = is_from-key src b s i fb fs in
      let found = lookup-purge_source c src w (key b s i) in
      unfold key in ground (arith, left, found)

  file_store_moves :
      (call : Call) (w : World)
      → IsFineCall ◌=ᵗ◌ IsPlain call
      → Agrees ◌=ᵗ◌ IsPlain
          (effect ◌=ᵗ◌ call (file_view w))
          (file_view (perform (file_store c) call w).1)
  unfolding file_store mark_seen record_finding claim pending_digest save_locked
  file_store_moves (Call.mark_seen b s i) w (fb, fs) = (
    λ b' s' i' fb' fs'. (holds-insert b s i b' s' i' w.file.state.seen fb fb' fs fs', refl),
    λ g. refl,
  )
  file_store_moves (Call.record_finding f) w (fb, fs) = (
    λ b s i fb' fs'. (
      holds-insert f.beacon f.signal.source f.signal.id b s i w.file.state.seen fb fb' fs fs',
      sym (any-concat (is_of ◌=ᵗ◌ b s i) w.file.state.findings f),
    ),
    λ g. refl,
  )
  file_store_moves (Call.claim f who) w fine =
      (λ b s i fb fs. (refl, refl), λ g. sym (lookup-insert f g who w.file.state.claims))
  file_store_moves (Call.purge_source src) w fine = (
    λ b s i fb fs. (
      purge_view src w b s i fb fs,
      rw (purge_source_rows c src w).0 (sym (any-keep b s i src w.file.state.findings)),
    ),
    λ g. rw (purge_source_rows c src w).1 refl,
  )
  file_store_moves (Call.seen b' s' i') w fine =
      (λ b s i fb fs. rw (seen-holds b' s' i' w) (refl, refl), λ g. rw (seen-holds b' s' i' w) refl)
  file_store_moves (Call.pending_digest b) w fine = (λ b s i fb fs. (refl, refl), λ g. refl)

  file_store-IsTrue :
      (call : Call) (w : World)
      → IsFineCall ◌=ᵗ◌ IsPlain call
      → IsTrue ◌=ᵗ◌ IsPlain call (perform (file_store c) call w).0 (file_view w)
  unfolding file_store pending_digest
  file_store-IsTrue (Call.mark_seen b s i) w fine = tt
  file_store-IsTrue (Call.record_finding f) w fine = tt
  file_store-IsTrue (Call.claim f who) w fine = tt
  file_store-IsTrue (Call.purge_source src) w fine = tt
  file_store-IsTrue (Call.seen b s i) w fine = rw (seen-holds b s i w) refl
  file_store-IsTrue (Call.pending_digest b) w fine =
      (digest-All b w.file.state.findings, λ s i fs. any-digest b s i w.file.state.findings)

  file_store-Implements : Implements ◌=ᵗ◌ IsPlain Never (file_store c) file_view Always
  file_store-Implements = record {
    keeps = λ call w fine sound. tt;
    is_true = λ call w fine sound. file_store-IsTrue call w fine;
    moves = λ call w fine sound. inl (file_store_moves call w fine);
  }

  -- The file store refines the contract: whatever calls are made, with names that hold no colon, and
  -- whichever saves fail, the store acts in memory as a set of seen rows, a set of recorded rows and
  -- the claims, on which each call takes its whole effect, also one whose save fails. Each answer of
  -- Seen is true, and each digest holds findings of its beacon alone, with one for exactly its recorded
  -- rows. The count of a purge is not part of the contract.
  pub file_store-Explains :
      (calls : List Call) (w : World)
      → All (IsFineCall ◌=ᵗ◌ IsPlain) calls
      → Explains ◌=ᵗ◌ IsPlain Never
          (perform_all (file_store c) calls w).0
          (file_view w)
          (file_view (perform_all (file_store c) calls w).1)
  file_store-Explains calls w fine =
      perform_all-Explains ◌=ᵗ◌ IsPlain Never (file_store c) file_view Always file_store-Implements
        calls w fine tt
