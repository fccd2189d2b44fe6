-- ===== src/Engine/Pipeline/Once.antt =====
-- A finding is posted at most once: what the loop gets from a store that keeps what it marks.
use if_sos_beacon.Base.{
  Text, ◌≤◌, ◌≡◌, refl, ap, subst₃, Bool, true, false, inl, inr, Option, none, some, List, [], ◌∷◌,
  ◌++◌, =ᵗ_iff, arith, All, Bool-cases,
}
use if_sos_beacon.Base.Floats.{fge}
use if_sos_beacon.Base.Errors.{Error, Result, ok, err}
use if_sos_beacon.Core.{Signal, Verdict, Finding}
use if_sos_beacon.Engine.Tally.{Counter}
use if_sos_beacon.Engine.Pipeline.{
  Env, Loop, is_stale, is_filtered, is_dropped, finding_of, count, mark, record_result,
  record_stage, deliver_result, deliver_stage, classify_result, classify_stage, seen_result,
  process, process_all,
}
use if_sos_beacon.Engine.Pipeline.Trace.{Log, asked, marked, judged, posted, recorded, note, traced}
use if_sos_beacon.Engine.Pipeline.Dedupe.{
  DedupeLaws, is_row, is_row_of, posts, posts-concat, not_seen, Posted, quiet-Posted,
}

module _ {W : Type 0} (Marked : Text → Text → Text → W → Type 0) (b src i : Text) (e : Env W)
    (laws : DedupeLaws Marked e) (s : Signal) where
  abbrev Good : W × Log → Type 0
  Good = Posted Marked b src i

  -- The row, if it is the signal's, has no post yet.
  abbrev Unposted : Log → Type 0
  Unposted log = is_row_of b src i e.cfg.name s ≡ true → posts b src i log ≡ 0

  record_result-Posted :
      (r : Option Error × (W × Log)) (l : Loop (W × Log))
      → Good r.1
      → Good (record_result (traced e) s r l).world
  unfolding record_result count
  record_result-Posted (none, w) l h = h
  record_result-Posted (some x, w) l h = h

  record_stage-Posted :
      (f : Finding) (l : Loop (W × Log)) → Good l.world → Good (record_stage (traced e) s f l).world
  unfolding record_stage
  record_stage-Posted f l h =
      record_result-Posted ((traced e).recorder.record_finding f l.world) l (
        quiet-Posted Marked b src i l.world _ (recorded f _) refl
          (laws.record_keeps b src i f l.world.0) h)

  is_row-Marked :
      (f : Finding) (w : W)
      → is_row b src i f ≡ true
      → Marked f.beacon f.signal.source f.signal.id w
      → Marked b src i w
  is_row-Marked f w h m =
      let p : f.beacon ≡ b = ground (arith, =ᵗ_iff f.beacon b) in
      let q : f.signal.source ≡ src = ground (arith, =ᵗ_iff f.signal.source src) in
      let r : f.signal.id ≡ i = ground (arith, =ᵗ_iff f.signal.id i) in
      subst₃ (λ x y z. Marked x y z w) p q r m

  -- The row's own delivery: its one post, which Record then marks.
  record_row :
      (v : Verdict) (l : Loop (W × Log)) (log : Log) (w : W)
      → is_row_of b src i e.cfg.name s ≡ true
      → posts b src i log ≡ 0
      → l.world ≡ (w, log ++ posted (finding_of e.cfg s v) none ∷ [])
      → Good (record_stage (traced e) s (finding_of e.cfg s v) l).world
  unfolding record_stage
  record_row v l log w mine zero_posts at =
      let f = finding_of e.cfg s v in
      let r = e.recorder.record_finding f l.world.0 in
      let one : posts b src i (l.world.1 ++ recorded f r.0 ∷ []) ≡ 1 = ground (
        arith,
        posts-concat b src i l.world.1 (recorded f r.0),
        posts-concat b src i log (posted f none),
        ap (λ (x : W × Log). x.1) at,
      ) in
      record_result-Posted ((traced e).recorder.record_finding f l.world) l
        (omega arith, inr (is_row-Marked f r.1 mine (laws.record_marks f l.world.0)))

  deliver_result-Posted :
      (v : Verdict) (a : Option Error × W) (w : W) (log : Log) (l : Loop (W × Log))
      → (Marked b src i w → Marked b src i a.1)
      → Unposted log
      → Good (w, log)
      → Good
          (deliver_result
            (traced e)
            s
            (finding_of e.cfg s v)
            (note (posted (finding_of e.cfg s v)) log a)
            l).world
  unfolding deliver_result count
  deliver_result-Posted v (some x, w') w log l keeps free h =
      quiet-Posted Marked b src i (w, log) w' (posted (finding_of e.cfg s v) (some x)) refl keeps h
  deliver_result-Posted v (none, w') w log l keeps free h =
      let f = finding_of e.cfg s v in
      let c = posted f none in
      let l' = count (traced e) s Counter.delivered (record l { world = (w', log ++ c ∷ []) }) in
      elim (Bool-cases (is_row b src i f)) [
        | inl mine ↦ record_row v l' log w' mine (free mine) refl
        | inr other ↦
            record_stage-Posted f l' (quiet-Posted Marked b src i (w, log) w' c (rw other) keeps h)
      ]

  deliver_stage-Posted :
      (v : Verdict) (l : Loop (W × Log))
      → Unposted l.world.1
      → Good l.world
      → Good (deliver_stage (traced e) s v l).world
  unfolding deliver_stage count
  deliver_stage-Posted v l free h =
      let f = finding_of e.cfg s v in
      elim (Bool-cases (fge v.fit e.cfg.thresholds.realtime)) [
        | inl now ↦ rw now (
            deliver_result-Posted v (e.sink.deliver f l.world.0) l.world.0 l.world.1 l
              (laws.deliver_keeps b src i f l.world.0) free h)
        | inr later ↦ rw later (record_stage-Posted f (count (traced e) s Counter.digest l) h)
      ]

  -- Marking the signal's own row.
  mark-Posted : (l : Loop (W × Log)) → Good l.world → Good (mark (traced e) s l).world
  unfolding mark
  mark-Posted l h =
      quiet-Posted Marked b src i l.world _ (marked e.cfg.name s.source s.id _) refl
        (laws.mark_keeps b src i e.cfg.name s.source s.id l.world.0) h

  classify_result-Posted :
      (a : Result Verdict × W) (w : W) (log : Log) (l : Loop (W × Log))
      → (Marked b src i w → Marked b src i a.1)
      → Unposted log
      → Good (w, log)
      → Good (classify_result (traced e) s (note (judged s) log a) l).world
  unfolding classify_result count
  classify_result-Posted (err x, w') w log l keeps free h =
      quiet-Posted Marked b src i (w, log) w' (judged s (err x)) refl keeps h
  classify_result-Posted (ok v, w') w log l keeps free h =
      let c = judged s (ok v) in
      let l' = record l { world = (w', log ++ c ∷ []) } in
      let h' : Good l'.world = quiet-Posted Marked b src i (w, log) w' c refl keeps h in
      elim (Bool-cases (is_dropped e.cfg v)) [
        | inl noise ↦ rw noise (mark-Posted (count (traced e) s Counter.dropped l') h')
        | inr wanted ↦ rw wanted (
            deliver_stage-Posted v l' (λ mine. omega (arith, free mine, posts-concat b src i log c))
              h')
      ]

  seen_result-Posted :
      (a : Result Bool × W) (w : W) (log : Log) (l : Loop (W × Log))
      → (Marked b src i w → Marked b src i a.1)
      → (is_row_of b src i e.cfg.name s ≡ true → Marked b src i w → a.0 ≡ ok true)
      → Good (w, log)
      → Good (seen_result (traced e) s (note (asked e.cfg.name s.source s.id) log a) l).world
  unfolding seen_result count classify_stage is_filtered
  seen_result-Posted (err x, w') w log l keeps tells h =
      quiet-Posted Marked b src i (w, log) w' (asked e.cfg.name s.source s.id (err x)) refl keeps h
  seen_result-Posted (ok true, w') w log l keeps tells h =
      quiet-Posted Marked b src i (w, log) w' (asked e.cfg.name s.source s.id (ok true)) refl keeps
        h
  seen_result-Posted (ok false, w') w log l keeps tells h =
      let c = asked e.cfg.name s.source s.id (ok false) in
      let l' = record l { world = (w', log ++ c ∷ []) } in
      let h' : Good l'.world = quiet-Posted Marked b src i (w, log) w' c refl keeps h in
      elim (Bool-cases (is_filtered e s)) [
        | inl off ↦ rw off (mark-Posted (count (traced e) s Counter.filtered l') h')
        | inr passes ↦ rw passes (
            classify_result-Posted (e.classifier.classify s e.context w') w' (log ++ c ∷ [])
              (count (traced e) s Counter.classified l') (laws.classify_keeps b src i s w')
              (λ mine. omega (arith, new_row mine, posts-concat b src i log c)) h')
      ]
    where
      new_row : is_row_of b src i e.cfg.name s ≡ true → posts b src i log ≡ 0
      new_row mine = elim h.1 [ inl z ↦ z | inr m ↦ absurd (not_seen (tells mine m)) ]

  tells :
      (l : Loop (W × Log))
      → is_row_of b src i e.cfg.name s ≡ true
      → Marked b src i l.world.0
      → (e.deduper.seen e.cfg.name s.source s.id l.world.0).0 ≡ ok true
  tells l mine m =
      let p : b ≡ e.cfg.name = ground (arith, =ᵗ_iff e.cfg.name b) in
      let q : src ≡ s.source = ground (arith, =ᵗ_iff s.source src) in
      let r : i ≡ s.id = ground (arith, =ᵗ_iff s.id i) in
      subst₃ (λ x y z. (e.deduper.seen x y z l.world.0).0 ≡ ok true) p q r
        (laws.answers b src i l.world.0 m)

  process-Posted : (l : Loop (W × Log)) → Good l.world → Good (process (traced e) s l).world
  unfolding process count
  process-Posted l h = elim (Bool-cases (is_stale e.max_age e.now s)) [
    | inl old ↦ rw old h
    | inr fresh ↦ rw fresh (
        seen_result-Posted (e.deduper.seen e.cfg.name s.source s.id l.world.0) l.world.0 l.world.1 l
          (laws.seen_keeps b src i e.cfg.name s.source s.id l.world.0) (tells l) h)
  ]

-- The loops of several runs, one after the other, in one world: each with its own environment (its
-- beacon, its clock, its sources) and the signals that it fetched.
unfoldable pub loops : {W : Type 0} → List (Env W × List Signal) → W × Log → W × Log
loops [] wl = wl
loops ((e, ss) ∷ runs) wl =
    loops runs (process_all (traced e) ss (record { tally = []; world = wl })).world

module _ {W : Type 0} (Marked : Text → Text → Text → W → Type 0) (b src i : Text) where
  process_all-Posted :
      (e : Env W) (laws : DedupeLaws Marked e) (ss : List Signal) (l : Loop (W × Log))
      → Posted Marked b src i l.world
      → Posted Marked b src i (process_all (traced e) ss l).world
  unfolding process_all
  process_all-Posted e laws [] l h = h
  process_all-Posted e laws (s ∷ ss) l h =
      process_all-Posted e laws ss (process (traced e) s l)
        (process-Posted Marked b src i e laws s l h)

  loops-Posted :
      (runs : List (Env W × List Signal)) (wl : W × Log)
      → All (λ r. DedupeLaws Marked r.0) runs
      → Posted Marked b src i wl
      → Posted Marked b src i (loops runs wl)
  unfolding loops
  loops-Posted [] wl laws h = h
  loops-Posted ((e, ss) ∷ runs) wl (law, laws) h =
      loops-Posted runs _ laws (process_all-Posted e law ss (record { tally = []; world = wl }) h)

  -- Over any sequence of runs, of any beacons, with any signals (repeated ones too), the sink accepts
  -- at most one post for each beacon, source and id; whether Record's own save fails or not. It is
  -- assumed of the ports that a row which is marked is reported as seen, that no call unmarks it, and
  -- that Record marks its finding's row, also when it reports an error.
  pub posts_at_most_once :
      (runs : List (Env W × List Signal)) (w : W)
      → All (λ r. DedupeLaws Marked r.0) runs
      → posts b src i (loops runs (w, [])).1 ≤ 1
  posts_at_most_once runs w laws = (loops-Posted runs (w, []) laws (omega arith)).0
