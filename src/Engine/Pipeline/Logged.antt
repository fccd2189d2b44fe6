-- ===== src/Engine/Pipeline/Logged.antt =====
-- What the counters of the loop are to be, by the calls that it makes as the trace has them.
use if_sos_beacon.Base.{
  ℕ, ◌+◌, ◌≡◌, Bool, true, false, none, some, [], ◌∷◌, ◌++◌, arith, length, keep, if◌then◌else◌,
}
use if_sos_beacon.Base.Errors.{ok, err}
use if_sos_beacon.Engine.Tally.{SourceStats}
use if_sos_beacon.Engine.Pipeline.Trace.{Call, asked, marked, judged, posted, recorded, Log}

abbrev pub is_asked : Call → Bool
is_asked (asked b s i r) = true
is_asked _ = false

-- The store has the row already.
abbrev pub is_known : Call → Bool
is_known (asked b s i (ok true)) = true
is_known _ = false

abbrev pub is_judged : Call → Bool
is_judged (judged s r) = true
is_judged _ = false

abbrev pub is_accepted : Call → Bool
is_accepted (posted f none) = true
is_accepted _ = false

abbrev pub is_recorded : Call → Bool
is_recorded (recorded f x) = true
is_recorded _ = false

abbrev pub is_marked : Call → Bool
is_marked (marked b s i x) = true
is_marked _ = false

-- The call answered an error. That of MarkSeen is only logged.
abbrev pub is_failed : Call → Bool
is_failed (asked b s i (err x)) = true
is_failed (judged s (err x)) = true
is_failed (posted f (some x)) = true
is_failed (recorded f (some x)) = true
is_failed _ = false

abbrev pub calls : (Call → Bool) → Log → ℕ
calls p log = length (keep p log)

-- Behind `handled` signals. `recording` findings are counted and not yet recorded, and `marking`
-- signals are counted and not yet marked.
pub record Logged (handled recording marking : ℕ) (log : Log) (t : SourceStats) : Type 0 where
  pub each_asked : t.stale + calls is_asked log ≡ handled
  pub each_known : t.seen ≡ calls is_known log
  pub each_judged : t.classified ≡ calls is_judged log
  pub each_accepted : t.delivered ≡ calls is_accepted log
  pub each_recorded : t.delivered + t.digest ≡ calls is_recorded log + recording
  pub each_marked : t.filtered + t.dropped ≡ calls is_marked log + marking
  pub each_failed : t.errors ≡ calls is_failed log

calls-snoc :
    (p : Call → Bool) (log : Log) (c : Call)
    → calls p (log ++ c ∷ []) ≡ calls p log + (if p c then 1 else 0)
unfolding keep
calls-snoc p [] c = ground arith
calls-snoc p (d ∷ log) c = ground (arith, calls-snoc p log c)

-- One more call, test by test.
pub record Snoc (log : Log) (c : Call) : Type 0 where
  pub asked_more :
      calls is_asked (log ++ c ∷ []) ≡ calls is_asked log + (if is_asked c then 1 else 0)
  pub known_more :
      calls is_known (log ++ c ∷ []) ≡ calls is_known log + (if is_known c then 1 else 0)
  pub judged_more :
      calls is_judged (log ++ c ∷ []) ≡ calls is_judged log + (if is_judged c then 1 else 0)
  pub accepted_more :
      calls is_accepted (log ++ c ∷ []) ≡ calls is_accepted log + (if is_accepted c then 1 else 0)
  pub recorded_more :
      calls is_recorded (log ++ c ∷ []) ≡ calls is_recorded log + (if is_recorded c then 1 else 0)
  pub marked_more :
      calls is_marked (log ++ c ∷ []) ≡ calls is_marked log + (if is_marked c then 1 else 0)
  pub failed_more :
      calls is_failed (log ++ c ∷ []) ≡ calls is_failed log + (if is_failed c then 1 else 0)

pub snoc : (log : Log) (c : Call) → Snoc log c
snoc log c = record {
  asked_more = calls-snoc is_asked log c;
  known_more = calls-snoc is_known log c;
  judged_more = calls-snoc is_judged log c;
  accepted_more = calls-snoc is_accepted log c;
  recorded_more = calls-snoc is_recorded log c;
  marked_more = calls-snoc is_marked log c;
  failed_more = calls-snoc is_failed log c;
}
