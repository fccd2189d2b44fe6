-- ===== src/Store/File/Purge.antt =====
-- What PurgeSource deletes, keeps and reports.
use if_sos_beacon.Base.{
  Text, ◌=ᵗ◌, ◌≡◌, refl, ℕ, ◌+◌, ◌≤◌, Bool, false, not, none, List, [], ◌∷◌, ◌++◌, arith, Lacks,
  keep, length, length-append, append_assoc, append-nil, if◌then◌else◌, =ᵗ_iff,
}
use if_sos_beacon.Base.Maps.{Map, lookup}
use if_sos_beacon.Base.Errors.{ok}
use if_sos_beacon.Core.{Finding}
use if_sos_beacon.Store.Key.{colon, key, is_from, is_from-key, is_from-colon}
use if_sos_beacon.Store.File.{
  Codec, World, seen, purge_seen, purge_findings, purge_source, save_locked,
}

lookup-purge_seen :
    (source : Text) (n : ℕ) (m : Map Bool) (k : Text)
    → lookup k (purge_seen source n m).1 ≡ (if is_from source k then none else lookup k m)
unfolding lookup purge_seen
lookup-purge_seen source n [] k = ground arith
lookup-purge_seen source n ((j, b) ∷ m) k =
    ground (arith, =ᵗ_iff j k, lookup-purge_seen source (if is_from source j then n + 1 else n) m k)

purge_seen_count :
    (source : Text) (n : ℕ) (m : Map Bool)
    → (purge_seen source n m).0 + length (purge_seen source n m).1 ≡ n + length m
unfolding purge_seen
purge_seen_count source n [] = refl
purge_seen_count source n ((j, b) ∷ m) =
    ground (arith, purge_seen_count source (if is_from source j then n + 1 else n) m)

purge_findings_kept :
    (source : Text) (n : ℕ) (kept fs : List Finding)
    → (purge_findings source n kept fs).1 ≡ kept ++ keep (λ f. not (f.signal.source =ᵗ source)) fs
unfolding purge_findings keep
purge_findings_kept source n kept [] = rw append-nil
purge_findings_kept source n kept (f ∷ fs) =
    let gone = f.signal.source =ᵗ source in
    ground (
      arith,
      purge_findings_kept source (if gone then n + 1 else n) (if gone then kept else kept ++ f ∷ [])
          fs,
      append_assoc kept (f ∷ []) (keep (λ g. not (g.signal.source =ᵗ source)) fs),
    )

purge_findings_count :
    (source : Text) (n : ℕ) (kept fs : List Finding)
    → (purge_findings source n kept fs).0 + length (purge_findings source n kept fs).1
      ≡ n + length kept + length fs
unfolding purge_findings
purge_findings_count source n kept [] = omega arith
purge_findings_count source n kept (f ∷ fs) =
    let gone = f.signal.source =ᵗ source in
    ground (
      arith,
      purge_findings_count source (if gone then n + 1 else n)
          (if gone then kept else kept ++ f ∷ []) fs,
      length-append {0} kept (f ∷ []),
    )

-- Nothing counted, nothing deleted.
purge_seen_none :
    (source : Text) (n : ℕ) (m : Map Bool)
    → (n ≤ (purge_seen source n m).0)
      × ((purge_seen source n m).0 ≡ n → (purge_seen source n m).1 ≡ m)
unfolding purge_seen
purge_seen_none source n [] = (omega arith, λ _. refl)
purge_seen_none source n ((j, b) ∷ m) =
    ground (arith, purge_seen_none source (if is_from source j then n + 1 else n) m)

purge_findings_none :
    (source : Text) (n : ℕ) (kept fs : List Finding)
    → (n ≤ (purge_findings source n kept fs).0)
      × ((purge_findings source n kept fs).0 ≡ n → (purge_findings source n kept fs).1 ≡ kept ++ fs)
unfolding purge_findings
purge_findings_none source n kept [] = (omega arith, λ _. rw append-nil)
purge_findings_none source n kept (f ∷ fs) =
    let gone = f.signal.source =ᵗ source in
    ground (
      arith,
      purge_findings_none source (if gone then n + 1 else n) (if gone then kept else kept ++ f ∷ [])
          fs,
      append_assoc kept (f ∷ []) fs,
    )

-- The number of dedupe rows and findings that a store holds.
abbrev pub rows : World → ℕ
rows w = length w.file.state.seen + length w.file.state.findings

module _ (c : Codec) (source : Text) (w : World) where
  seen-purge_source :
      (purge_source c source w).1.file.state.seen ≡ (purge_seen source 0 w.file.state.seen).1
  unfolding purge_source save_locked
  seen-purge_source = ground arith

  pub lookup-purge_source :
      (k : Text)
      → lookup k (purge_source c source w).1.file.state.seen
        ≡ (if is_from source k then none else lookup k w.file.state.seen)
  lookup-purge_source k = rw seen-purge_source (lookup-purge_seen source 0 w.file.state.seen k)

  seen_after_purge :
      (b s i : Text)
      → (seen c b s i (purge_source c source w).1).0
        ≡ (if is_from source (key b s i) then ok false else (seen c b s i w).0)
  unfolding seen
  seen_after_purge b s i = ground (arith, lookup-purge_source (key b s i))

  -- A purge keeps exactly the findings of other sources, in their order, and all claims, and it
  -- reports the number of dedupe rows and findings that went.
  pub purge_source_rows :
      ((purge_source c source w).1.file.state.findings
        ≡ keep (λ f. not (f.signal.source =ᵗ source)) w.file.state.findings)
      × ((purge_source c source w).1.file.state.claims ≡ w.file.state.claims)
      × ((purge_source c source w).0.0 + rows (purge_source c source w).1 ≡ rows w)
  unfolding purge_source save_locked
  purge_source_rows =
      let s = w.file.state in
      let n = (purge_seen source 0 s.seen).0 in
      ground (
        arith,
        purge_findings_kept source n [] s.findings,
        purge_findings_count source n [] s.findings,
        purge_seen_count source 0 s.seen,
      )

  -- A purge that finds nothing changes neither the state nor the disk, and reports no error.
  pub purge_source_nothing :
      (purge_source c source w).0.0 ≡ 0 → purge_source c source w ≡ ((0, none), w)
  unfolding purge_source save_locked
  purge_source_nothing h =
      let s = w.file.state in
      let n = (purge_seen source 0 s.seen).0 in
      ground (arith, purge_findings_none source n [] s.findings, purge_seen_none source 0 s.seen)

-- After a purge no row of the source is seen, for any beacon and id, and every row of another source
-- reads as before. Beacon and source names are taken to hold no colon.
pub seen-purge_source_exact :
    (c : Codec) (source b s i : Text) (w : World)
    → Lacks colon b
    → Lacks colon s
    → (seen c b s i (purge_source c source w).1).0
      ≡ (if s =ᵗ source then ok false else (seen c b s i w).0)
unfolding key
seen-purge_source_exact c source b s i w hb hs =
    rw (← is_from-key source b s i hb hs) (seen_after_purge c source w b s i)

-- A beacon whose name holds a colon is purged by the wrong part of its key: its rows are deleted
-- when the text behind the colon is the purged source, and kept otherwise, whatever source they came
-- from.
pub seen-purge_source_colon :
    (c : Codec) (source b b' s i : Text) (w : World)
    → Lacks colon b
    → Lacks colon b'
    → (seen c (b ++ colon ∷ b') s i (purge_source c source w).1).0
      ≡ (if b' =ᵗ source then ok false else (seen c (b ++ colon ∷ b') s i w).0)
seen-purge_source_colon c source b b' s i w hb hb' =
    rw (← is_from-colon source b b' s i hb hb') (seen_after_purge c source w (b ++ colon ∷ b') s i)
