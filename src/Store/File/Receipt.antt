-- ===== src/Store/File/Receipt.antt =====
-- What the receipt of a purge is worth: the file that the command leaves behind.
use if_sos_beacon.Base.{
  Text, ℕ, ◌≡◌, refl, ◌+◌, ◌==◌, ◌=ᵗ◌, =ᵗ_refl, not, none, false, [], arith, keep, Lacks, inl, inr,
  Bool-cases, Option-cases,
}
use if_sos_beacon.Base.Errors.{ok}
use if_sos_beacon.Store.Key.{colon}
use if_sos_beacon.Store.File.{
  Codec, World, open_file, save_locked, purge_source, purge_seen, purge_findings, with_state,
  file_store, seen, close,
}
use if_sos_beacon.Store.File.Reopen.{RoundTrips, reopen-save_locked}
use if_sos_beacon.Store.File.Purge.{
  rows, purge_source_rows, purge_source_nothing, seen-purge_source_exact,
}
use if_sos_beacon.Store.Registry.{purge_opened}

module _ (c : Codec) (source : Text) (w : World)
    (opened : open_file c none w.disk w.file.path ≡ ok w.file) where
  -- A purge without an error has left its state in the file, also where it found nothing to purge.
  open_file-purge_source :
      RoundTrips c (purge_source c source w).1.file.state
      → (purge_source c source w).0.1 ≡ none
      → open_file c none (purge_source c source w).1.disk w.file.path
        ≡ ok (purge_source c source w).1.file
  unfolding purge_source save_locked
  open_file-purge_source trips h =
      let s = w.file.state in
      let n = (purge_seen source 0 s.seen).0 in
      let m = (purge_findings source n [] s.findings).0 in
      let purged = with_state w (record s {
        seen = (purge_seen source 0 s.seen).1;
        findings = (purge_findings source n [] s.findings).1;
      }) in
      elim (Bool-cases (m == 0)) [
        | inl e ↦ rw (purge_source_nothing c source w (rw e refl)) opened
        | inr e ↦ rw e (reopen-save_locked c purged (rw e at trips) (rw e at h))
      ]

  purge_opened-purge_source :
      (n : ℕ)
      → (purge_opened (file_store c) source w).0 ≡ ok n
      → ((purge_source c source w).0.1 ≡ none) × ((purge_source c source w).0.0 ≡ n)
  unfolding purge_opened file_store
  purge_opened-purge_source n h = elim (Option-cases (purge_source c source w).0.1) [
    | inl e ↦ (e, ground (arith, rw (e, purge_opened) at h))
    | inr (x, e) ↦ absurd (ground (arith, rw (e, purge_opened) at h))
  ]

  purge_opened-world : (purge_opened (file_store c) source w).1 ≡ (purge_source c source w).1
  unfolding purge_opened file_store close
  purge_opened-world = refl

  -- The receipt of the purge command is true of the file: on a file store that was just opened, a purge
  -- that answers the count `n` leaves a file from which the store opens with that many dedupe rows and
  -- findings fewer, the findings of other sources in their order, and no row of the source seen. The
  -- codec is taken to read back what it writes for the purged state, and names to hold no colon.
  pub purge_opened-receipt :
      (n : ℕ) (b i : Text)
      → RoundTrips c (purge_source c source w).1.file.state
      → Lacks colon b
      → Lacks colon source
      → (purge_opened (file_store c) source w).0 ≡ ok n
      → (open_file c none (purge_opened (file_store c) source w).1.disk w.file.path
          ≡ ok (purge_opened (file_store c) source w).1.file)
        × (n + rows (purge_opened (file_store c) source w).1 ≡ rows w)
        × ((purge_opened (file_store c) source w).1.file.state.findings
            ≡ keep (λ f. not (f.signal.source =ᵗ source)) w.file.state.findings)
        × ((seen c b source i (purge_opened (file_store c) source w).1).0 ≡ ok false)
  purge_opened-receipt n b i trips hb hs h =
      let (fine, count) = purge_opened-purge_source n h in
      let (kept, _, sum) = purge_source_rows c source w in
      rw purge_opened-world (
        open_file-purge_source trips fine,
        rw count at sum,
        kept,
        rw (=ᵗ_refl source) at (seen-purge_source_exact c source b source i w hb hs),
      )
