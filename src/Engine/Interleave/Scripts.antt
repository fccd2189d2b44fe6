-- ===== src/Engine/Interleave/Scripts.antt =====
-- What a script does with one row of the dedupe set.
use if_sos_beacon.Base.{
  Text, ◌≡◌, Bool, true, false, inl, inr, Bool-cases, Option, none, some, =ᵗ_iff, arith,
}
use if_sos_beacon.Base.Floats.{fge}
use if_sos_beacon.Base.Errors.{Error, Result, ok, err}
use if_sos_beacon.Core.{Signal, Verdict}
use if_sos_beacon.Engine.Pipeline.{Env, is_stale, is_filtered, is_dropped, finding_of}
use if_sos_beacon.Engine.Pipeline.Dedupe.{is_row, is_row_of}
use if_sos_beacon.Engine.Pipeline.Script.{
  Script, finished, ask, mark, judge, post, keep_finding, posted_next, deliver_script, judged_next,
  asked_next, script_of,
}

module _ (b src i : Text) where
  -- It does not post the row, whatever the answers.
  abbrev pub Harmless : Script → Type 0
  Harmless finished = Unit {0}
  Harmless (ask _ _ _ k) = (x : Result Bool) → Harmless (k x)
  Harmless (mark _ _ _ k) = (x : Option Error) → Harmless (k x)
  Harmless (judge _ k) = (x : Result Verdict) → Harmless (k x)
  Harmless (post f k) = (is_row b src i f ≡ false) × ((x : Option Error) → Harmless (k x))
  Harmless (keep_finding _ k) = (x : Option Error) → Harmless (k x)

  -- It has posted the row, and records it next.
  abbrev pub Owing : Script → Type 0
  Owing (keep_finding f k) = (is_row b src i f ≡ true) × ((x : Option Error) → Harmless (k x))
  Owing finished = ⊥
  Owing (ask _ _ _ _) = ⊥
  Owing (mark _ _ _ _) = ⊥
  Owing (judge _ _) = ⊥
  Owing (post _ _) = ⊥

  -- It has heard that the row is new: it may post it once, and owes the record if the post goes out.
  abbrev pub Cleared : Script → Type 0
  Cleared (judge _ k) = (x : Result Verdict) → Cleared (k x)
  Cleared (post f k) = ((x : Error) → Harmless (k (some x))) × Owing (k none)
  Cleared finished = Unit {0}
  Cleared (mark _ _ _ k) = (x : Option Error) → Harmless (k x)
  Cleared (keep_finding _ k) = (x : Option Error) → Harmless (k x)
  Cleared (ask _ _ _ _) = ⊥

  -- It asks for the row first, and goes on only where the row is new; or it has ended.
  abbrev pub Asking : Script → Type 0
  Asking (ask b' s' i' k) =
      (b' ≡ b)
      × (s' ≡ src)
      × (i' ≡ i)
      × ((x : Error) → Harmless (k (err x)))
      × Harmless (k (ok true))
      × Cleared (k (ok false))
  Asking finished = Unit {0}
  Asking (mark _ _ _ _) = ⊥
  Asking (judge _ _) = ⊥
  Asking (post _ _) = ⊥
  Asking (keep_finding _ _) = ⊥

module _ (b src i : Text) {W : Type 0} (e : Env W) (s : Signal) where
  module _ (other : is_row_of b src i e.cfg.name s ≡ false) where
    Harmless-posted :
        (v : Verdict) (x : Option Error)
        → Harmless b src i (posted_next e s (finding_of e.cfg s v) x)
    unfolding posted_next
    Harmless-posted v (some x) = tt
    Harmless-posted v none = λ y. tt

    Harmless-deliver : (v : Verdict) → Harmless b src i (deliver_script e s v)
    unfolding deliver_script
    Harmless-deliver v = elim (Bool-cases (fge v.fit e.cfg.thresholds.realtime)) [
      | inl now ↦ rw now (other, Harmless-posted v)
      | inr later ↦ rw later (λ x. tt)
    ]

    Harmless-judged : (x : Result Verdict) → Harmless b src i (judged_next e s x)
    unfolding judged_next
    Harmless-judged (err x) = tt
    Harmless-judged (ok v) = elim (Bool-cases (is_dropped e.cfg v)) [
      | inl noise ↦ rw noise (λ x. tt)
      | inr wanted ↦ rw wanted (Harmless-deliver v)
    ]

    Harmless-asked : (x : Result Bool) → Harmless b src i (asked_next e s x)
    unfolding asked_next
    Harmless-asked (err x) = tt
    Harmless-asked (ok true) = tt
    Harmless-asked (ok false) = elim (Bool-cases (is_filtered e s)) [
      | inl off ↦ rw off (λ x. tt)
      | inr passes ↦ rw passes Harmless-judged
    ]

    -- The script of another row posts nothing of this one.
    pub script_of-Harmless : Harmless b src i (script_of e s)
    unfolding script_of
    script_of-Harmless = elim (Bool-cases (is_stale e.max_age e.now s)) [
      | inl old ↦ rw old tt
      | inr fresh ↦ rw fresh Harmless-asked
    ]

  module _ (own : is_row_of b src i e.cfg.name s ≡ true) where
    Cleared-deliver : (v : Verdict) → Cleared b src i (deliver_script e s v)
    unfolding deliver_script posted_next
    Cleared-deliver v = elim (Bool-cases (fge v.fit e.cfg.thresholds.realtime)) [
      | inl now ↦ rw now (λ x. tt, (own, λ x. tt))
      | inr later ↦ rw later (λ x. tt)
    ]

    Cleared-judged : (x : Result Verdict) → Cleared b src i (judged_next e s x)
    unfolding judged_next
    Cleared-judged (err x) = tt
    Cleared-judged (ok v) = elim (Bool-cases (is_dropped e.cfg v)) [
      | inl noise ↦ rw noise (λ x. tt)
      | inr wanted ↦ rw wanted (Cleared-deliver v)
    ]

    Cleared-asked : Cleared b src i (asked_next e s (ok false))
    unfolding asked_next
    Cleared-asked = elim (Bool-cases (is_filtered e s)) [
      | inl off ↦ rw off (λ x. tt)
      | inr passes ↦ rw passes Cleared-judged
    ]

    -- The script of this row asks for it first.
    pub script_of-Asking : Asking b src i (script_of e s)
    unfolding script_of asked_next
    script_of-Asking = elim (Bool-cases (is_stale e.max_age e.now s)) [
      | inl old ↦ rw old tt
      | inr fresh ↦ rw fresh (
        ground (arith, =ᵗ_iff e.cfg.name b),
        ground (arith, =ᵗ_iff s.source src),
        ground (arith, =ᵗ_iff s.id i),
        λ x. tt,
        tt,
        Cleared-asked,
      )
    ]
