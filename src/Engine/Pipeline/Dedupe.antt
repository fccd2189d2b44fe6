-- ===== src/Engine/Pipeline/Dedupe.antt =====
-- What the loop needs of a dedupe set, and how many posts a log has for one row.
use if_sos_beacon.Base.{
  Text, ℕ, ◌+◌, ◌≤◌, ◌≡◌, Bool, true, false, ◌&&◌, ◌⊎◌, inl, inr, none, [], ◌∷◌, ◌++◌, ◌=ᵗ◌, arith,
  if◌then◌else◌,
}
use if_sos_beacon.Base.Errors.{Result, ok}
use if_sos_beacon.Core.{Signal, Finding}
use if_sos_beacon.Engine.Pipeline.{Env}
use if_sos_beacon.Engine.Pipeline.Trace.{Call, Log, posted}

-- A row that the dedupe set holds, in some world, is `Marked`. The store answers that it has seen such
-- a row, no call of the loop takes it away, and Record puts in the row of its finding.
pub record DedupeLaws {W : Type 0} (Marked : Text → Text → Text → W → Type 0) (e : Env W)
    : Type 0 where
  pub answers : (b s i : Text) (w : W) → Marked b s i w → (e.deduper.seen b s i w).0 ≡ ok true
  pub seen_keeps :
      (b s i b' s' i' : Text) (w : W) → Marked b s i w → Marked b s i (e.deduper.seen b' s' i' w).1
  pub mark_keeps :
      (b s i b' s' i' : Text) (w : W)
      → Marked b s i w
      → Marked b s i (e.deduper.mark_seen b' s' i' w).1
  pub classify_keeps :
      (b s i : Text) (sig : Signal) (w : W)
      → Marked b s i w
      → Marked b s i (e.classifier.classify sig e.context w).1
  pub deliver_keeps :
      (b s i : Text) (f : Finding) (w : W) → Marked b s i w → Marked b s i (e.sink.deliver f w).1
  pub record_keeps :
      (b s i : Text) (f : Finding) (w : W)
      → Marked b s i w
      → Marked b s i (e.recorder.record_finding f w).1
  pub record_marks :
      (f : Finding) (w : W)
      → Marked f.beacon f.signal.source f.signal.id (e.recorder.record_finding f w).1

module _ (b src i : Text) where
  -- The finding is the one of this beacon, source and id.
  abbrev pub is_row : Finding → Bool
  is_row f = f.beacon =ᵗ b && (f.signal.source =ᵗ src && f.signal.id =ᵗ i)

  -- The same of a signal, for the beacon that reads it.
  abbrev pub is_row_of : Text → Signal → Bool
  is_row_of beacon s = beacon =ᵗ b && (s.source =ᵗ src && s.id =ᵗ i)

  abbrev pub post : Call → ℕ
  post (posted f none) = if is_row f then 1 else 0
  post _ = 0

  -- How many posts of the row the log holds that the sink accepted.
  abbrev pub posts : Log → ℕ
  posts [] = 0
  posts (c ∷ log) = post c + posts log

  pub posts-concat : (log : Log) (c : Call) → posts (log ++ c ∷ []) ≡ posts log + post c
  posts-concat [] c = omega arith
  posts-concat (d ∷ log) c = omega (arith, posts-concat log c)

pub not_seen : ◌≡◌ {A = Result Bool} (ok false) (ok true) → ⊥
not_seen h = cc

module _ {W : Type 0} (Marked : Text → Text → Text → W → Type 0) (b src i : Text) where
  -- At most one post so far, and none unless the row is marked.
  abbrev pub Posted : W × Log → Type 0
  Posted wl = (posts b src i wl.1 ≤ 1) × ((posts b src i wl.1 ≡ 0) ⊎ Marked b src i wl.0)

  -- A call that is no post keeps this, if the row stays marked.
  pub quiet-Posted :
      (wl : W × Log) (w : W) (c : Call)
      → post b src i c ≡ 0
      → (Marked b src i wl.0 → Marked b src i w)
      → Posted wl
      → Posted (w, wl.1 ++ c ∷ [])
  quiet-Posted wl w c quiet keeps (le, inl none_yet) =
      (omega (arith, posts-concat b src i wl.1 c), inl (omega (arith, posts-concat b src i wl.1 c)))
  quiet-Posted wl w c quiet keeps (le, inr m) =
      (omega (arith, posts-concat b src i wl.1 c), inr (keeps m))
