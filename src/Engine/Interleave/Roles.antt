-- ===== src/Engine/Interleave/Roles.antt =====
-- The part that a goroutine plays for one row, and how one turn changes it.
use if_sos_beacon.Base.{
  Text, ◌≤◌, ◌≡◌, refl, sym, ◌∙◌, Bool, true, false, inl, inr, Option, none, some, [], ◌∷◌, ◌++◌,
  =ᵗ_iff, arith,
}
use if_sos_beacon.Base.Errors.{Error, Result, ok, err}
use if_sos_beacon.Core.{Finding}
use if_sos_beacon.Engine.Pipeline.{Env}
use if_sos_beacon.Engine.Pipeline.Dedupe.{
  DedupeLaws, is_row, post, posts, posts-concat, not_seen, Posted,
}
use if_sos_beacon.Engine.Pipeline.Trace.{Call, Log, posted, recorded}
use if_sos_beacon.Engine.Pipeline.Script.{Script, finished, ask, mark, judge, keep_finding, perform}
use if_sos_beacon.Engine.Interleave.Scripts.{Harmless, Owing, Cleared, Asking}

module _ {W : Type 0} (Marked : Text → Text → Text → W → Type 0) (b src i : Text) where
  -- No post of the row, and it stays marked if it was.
  pub record Quiet (wl wl' : W × Log) : Type 0 where
    pub same_posts : posts b src i wl'.1 ≡ posts b src i wl.1
    pub stays : Marked b src i wl.0 → Marked b src i wl'.0

  Quiet-call :
      (wl : W × Log) (w : W) (c : Call)
      → post b src i c ≡ 0
      → (Marked b src i wl.0 → Marked b src i w)
      → Quiet wl (w, wl.1 ++ c ∷ [])
  Quiet-call wl w c none_here keeps = record {
    same_posts = omega (arith, posts-concat b src i wl.1 c, none_here);
    stays = keeps;
  }

  -- What a goroutine may still do about the row, with what the log and the store hold of it.
  pub data Role (sc : Script) (wl : W × Log) : Type 0 where
    harmless : Harmless b src i sc → Posted Marked b src i wl → Role sc wl
    asking : Asking b src i sc → Posted Marked b src i wl → Role sc wl
    cleared : Cleared b src i sc → posts b src i wl.1 ≡ 0 → Role sc wl
    owing : Owing b src i sc → posts b src i wl.1 ≤ 1 → Role sc wl

  Posted-Quiet :
      (wl wl' : W × Log) → Quiet wl wl' → Posted Marked b src i wl → Posted Marked b src i wl'
  Posted-Quiet wl wl' q (le, inl zero_yet) =
      (omega (arith, q.same_posts), inl (omega (arith, q.same_posts)))
  Posted-Quiet wl wl' q (le, inr m) = (omega (arith, q.same_posts), inr (q.stays m))

  -- Another goroutine's turn.
  pub Role-Quiet : (sc : Script) (wl wl' : W × Log) → Quiet wl wl' → Role sc wl → Role sc wl'
  Role-Quiet sc wl wl' q (harmless h p) = harmless h (Posted-Quiet wl wl' q p)
  Role-Quiet sc wl wl' q (asking h p) = asking h (Posted-Quiet wl wl' q p)
  Role-Quiet sc wl wl' q (cleared h p) = cleared h (q.same_posts ∙ p)
  Role-Quiet sc wl wl' q (owing h p) = owing h (omega (arith, q.same_posts))

  pub Role-bound : (sc : Script) (wl : W × Log) → Role sc wl → posts b src i wl.1 ≤ 1
  Role-bound sc wl (harmless h p) = p.0
  Role-bound sc wl (asking h p) = p.0
  Role-bound sc wl (cleared h p) = omega arith
  Role-bound sc wl (owing h p) = p

  module _ (e : Env W) (laws : DedupeLaws Marked e) where
    post-harmless :
        (f : Finding) (x : Option Error) → is_row b src i f ≡ false → post b src i (posted f x) ≡ 0
    post-harmless f none h = rw h refl
    post-harmless f (some x) h = refl

    -- The call of a harmless script is no post of the row.
    pub perform-Harmless :
        (sc : Script) (wl : W × Log)
        → Harmless b src i sc
        → Harmless b src i (perform e sc wl).0 × Quiet wl (perform e sc wl).1
    unfolding perform
    perform-Harmless finished wl h = (tt, record { same_posts = refl; stays = λ m. m })
    perform-Harmless (ask b' s' i' k) wl h = (
      h (e.deduper.seen b' s' i' wl.0).0,
      Quiet-call wl _ _ refl (laws.seen_keeps b src i b' s' i' wl.0),
    )
    perform-Harmless (mark b' s' i' k) wl h = (
      h (e.deduper.mark_seen b' s' i' wl.0).0,
      Quiet-call wl _ _ refl (laws.mark_keeps b src i b' s' i' wl.0),
    )
    perform-Harmless (judge s k) wl h = (
      h (e.classifier.classify s e.context wl.0).0,
      Quiet-call wl _ _ refl (laws.classify_keeps b src i s wl.0),
    )
    perform-Harmless (Script.post f k) wl (own, h) = (
      h (e.sink.deliver f wl.0).0,
      Quiet-call wl _ _ (post-harmless f (e.sink.deliver f wl.0).0 own)
          (laws.deliver_keeps b src i f wl.0),
    )
    perform-Harmless (keep_finding f k) wl h = (
      h (e.recorder.record_finding f wl.0).0,
      Quiet-call wl _ _ refl (laws.record_keeps b src i f wl.0),
    )

    module _ (wl wl' : W × Log) (q : Quiet wl wl') where
      none-Posted : posts b src i wl.1 ≡ 0 → Posted Marked b src i wl'
      none-Posted h = (omega (arith, q.same_posts), inl (q.same_posts ∙ h))

      asked-Role :
          (x : Result Bool) (k : Result Bool → Script)
          → Posted Marked b src i wl
          → (x ≡ ok false → posts b src i wl.1 ≡ 0)
          → ((y : Error) → Harmless b src i (k (err y)))
          → Harmless b src i (k (ok true))
          → Cleared b src i (k (ok false))
          → Role (k x) wl'
      asked-Role (err y) k p new he ht hf = harmless (he y) (Posted-Quiet wl wl' q p)
      asked-Role (ok true) k p new he ht hf = harmless ht (Posted-Quiet wl wl' q p)
      asked-Role (ok false) k p new he ht hf = cleared hf (q.same_posts ∙ new refl)

    -- A row that the store calls new has not been posted.
    new_unposted :
        (b' s' i' : Text) (wl : W × Log)
        → b' ≡ b
        → s' ≡ src
        → i' ≡ i
        → Posted Marked b src i wl
        → (e.deduper.seen b' s' i' wl.0).0 ≡ ok false
        → posts b src i wl.1 ≡ 0
    new_unposted b' s' i' wl eb es ei (le, inl zero_yet) h = zero_yet
    new_unposted b' s' i' wl eb es ei (le, inr m) h =
        absurd (not_seen (sym h ∙ rw (eb, es, ei) (laws.answers b src i wl.0 m)))

    posted-Role :
        (f : Finding) (x : Option Error) (k : Option Error → Script) (log : Log) (w : W)
        → ((y : Error) → Harmless b src i (k (some y)))
        → Owing b src i (k none)
        → posts b src i log ≡ 0
        → Role (k x) (w, log ++ posted f x ∷ [])
    posted-Role f none k log w hf ho h =
        owing ho (ground (arith, posts-concat b src i log (posted f none)))
    posted-Role f (some y) k log w hf ho h = harmless (hf y) (
      omega (arith, posts-concat b src i log (posted f (some y))),
      inl (omega (arith, posts-concat b src i log (posted f (some y)))),
    )

    own-Marked :
        (f : Finding) (w : W)
        → is_row b src i f ≡ true
        → Marked f.beacon f.signal.source f.signal.id w
        → Marked b src i w
    own-Marked f w own m =
        let eb : f.beacon ≡ b = ground (arith, =ᵗ_iff f.beacon b) in
        let es : f.signal.source ≡ src = ground (arith, =ᵗ_iff f.signal.source src) in
        let ei : f.signal.id ≡ i = ground (arith, =ᵗ_iff f.signal.id i) in
        rw (sym eb, sym es, sym ei) m

    Asking-Role :
        (sc : Script) (wl : W × Log)
        → Asking b src i sc
        → Posted Marked b src i wl
        → Role (perform e sc wl).0 (perform e sc wl).1
    unfolding perform
    Asking-Role finished wl h p = asking tt p
    Asking-Role (ask b' s' i' k) wl (eb, es, ei, he, ht, hf) p =
        asked-Role wl _ (Quiet-call wl _ _ refl (laws.seen_keeps b src i b' s' i' wl.0))
          (e.deduper.seen b' s' i' wl.0).0 k p (new_unposted b' s' i' wl eb es ei p) he ht hf
    Asking-Role (mark b' s' i' k) wl h p = absurd h
    Asking-Role (judge s k) wl h p = absurd h
    Asking-Role (Script.post f k) wl h p = absurd h
    Asking-Role (keep_finding f k) wl h p = absurd h

    Cleared-Role :
        (sc : Script) (wl : W × Log)
        → Cleared b src i sc
        → posts b src i wl.1 ≡ 0
        → Role (perform e sc wl).0 (perform e sc wl).1
    unfolding perform
    Cleared-Role finished wl h p = cleared tt p
    Cleared-Role (ask b' s' i' k) wl h p = absurd h
    Cleared-Role (mark b' s' i' k) wl h p =
        harmless (h (e.deduper.mark_seen b' s' i' wl.0).0)
          (none-Posted wl _ (Quiet-call wl _ _ refl (laws.mark_keeps b src i b' s' i' wl.0)) p)
    Cleared-Role (judge s k) wl h p =
        cleared (h (e.classifier.classify s e.context wl.0).0)
          ((Quiet-call wl _ _ refl (laws.classify_keeps b src i s wl.0)).same_posts ∙ p)
    Cleared-Role (Script.post f k) wl (hf, ho) p =
        posted-Role f (e.sink.deliver f wl.0).0 k wl.1 (e.sink.deliver f wl.0).1 hf ho p
    Cleared-Role (keep_finding f k) wl h p =
        harmless (h (e.recorder.record_finding f wl.0).0)
          (none-Posted wl _ (Quiet-call wl _ _ refl (laws.record_keeps b src i f wl.0)) p)

    Owing-Role :
        (sc : Script) (wl : W × Log)
        → Owing b src i sc
        → posts b src i wl.1 ≤ 1
        → Role (perform e sc wl).0 (perform e sc wl).1
    unfolding perform
    Owing-Role finished wl h p = absurd h
    Owing-Role (ask b' s' i' k) wl h p = absurd h
    Owing-Role (mark b' s' i' k) wl h p = absurd h
    Owing-Role (judge s k) wl h p = absurd h
    Owing-Role (Script.post f k) wl h p = absurd h
    Owing-Role (keep_finding f k) wl (own, h) p =
        let x = (e.recorder.record_finding f wl.0).0 in
        harmless (h x) (
          omega (arith, posts-concat b src i wl.1 (recorded f x)),
          inr (own-Marked f (e.recorder.record_finding f wl.0).1 own (laws.record_marks f wl.0)),
        )

    -- The goroutine's own call.
    pub perform-Role :
        (sc : Script) (wl : W × Log) → Role sc wl → Role (perform e sc wl).0 (perform e sc wl).1
    perform-Role sc wl (harmless h p) =
        let (h', q) = perform-Harmless sc wl h in
        harmless h' (Posted-Quiet wl (perform e sc wl).1 q p)
    perform-Role sc wl (asking h p) = Asking-Role sc wl h p
    perform-Role sc wl (cleared h p) = Cleared-Role sc wl h p
    perform-Role sc wl (owing h p) = Owing-Role sc wl h p
