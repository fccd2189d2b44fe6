-- ===== src/Store/Contract.antt =====
-- What the persistence port of internal/core/core.go promises, apart from how a store keeps it: a set
-- of rows that were seen, a set of rows with a finding and the claims, and what each call does to them.
-- `same` is the store's equality of names, and `Fine` the names that it keeps apart.
pub mod Refine
use if_sos_beacon.Base.{
  Text, ℕ, Bool, true, false, not, ◌&&◌, ◌||◌, ◌≡◌, Option, none, some, List, [], ◌∷◌, any, ◌⊎◌,
  All, if◌then◌else◌,
}
use if_sos_beacon.Base.Errors.{Error, Result, ok, err}
use if_sos_beacon.Core.{Finding, Store}

pub record View : Type 0 where
  pub seen : Text → Text → Text → Bool
  pub recorded : Text → Text → Text → Bool
  pub claimed : Text → Option Text

pub data Call : Type 0 where
  mark_seen : Text → Text → Text → Call
  record_finding : Finding → Call
  claim : Text → Text → Call
  purge_source : Text → Call
  seen : Text → Text → Text → Call
  pending_digest : Text → Call

-- What a call answers.
pub data Reply : Type 0 where
  acknowledged : Option Error → Reply
  told : Result Bool → Reply
  listed : Result (List Finding) → Reply

-- One call of a store.
abbrev pub perform : {W : Type 0} → Store W → Call → W → Reply × W
perform st (Call.mark_seen b s i) w =
    let (e, w') = st.deduper.mark_seen b s i w in (acknowledged e, w')
perform st (Call.record_finding f) w =
    let (e, w') = st.recorder.record_finding f w in (acknowledged e, w')
perform st (Call.claim f who) w = let (e, w') = st.ledger.claim f who w in (acknowledged e, w')
perform st (Call.purge_source s) w =
    let ((n, e), w') = st.purger.purge_source s w in (acknowledged e, w')
perform st (Call.seen b s i) w = let (r, w') = st.deduper.seen b s i w in (told r, w')
perform st (Call.pending_digest b) w = let (r, w') = st.ledger.pending_digest b w in (listed r, w')

-- A sequence of calls, and what they answered.
abbrev pub perform_all : {W : Type 0} → Store W → List Call → W → List (Call × Reply) × W
perform_all st [] w = ([], w)
perform_all st (c ∷ cs) w =
    let (r, w') = perform st c w in let (log, w'') = perform_all st cs w' in ((c, r) ∷ log, w'')

abbrev pub HasFailed : Reply → Type 0
HasFailed (acknowledged none) = ⊥
HasFailed (told (ok x)) = ⊥
HasFailed (listed (ok x)) = ⊥
HasFailed (acknowledged (some e)) = Unit {0}
HasFailed (told (err e)) = Unit {0}
HasFailed (listed (err e)) = Unit {0}

module _ (same : Text → Text → Bool) where
  -- Two rows are one: their beacons, sources and ids agree.
  abbrev pub one_row : Text → Text → Text → Text → Text → Text → Bool
  one_row b s i b' s' i' = same b b' && (same s s' && same i i')

  abbrev pub is_of : Text → Text → Text → Finding → Bool
  is_of b s i f = one_row f.beacon f.signal.source f.signal.id b s i

  -- What a call does to the sets and the claims. The last claimant of a finding has it.
  abbrev pub effect : Call → View → View
  effect (Call.mark_seen b s i) v = record v {
    seen = λ b' s' i'. one_row b s i b' s' i' || v.seen b' s' i';
  }
  effect (Call.record_finding f) v = record v {
    seen = λ b s i. is_of b s i f || v.seen b s i;
    recorded = λ b s i. is_of b s i f || v.recorded b s i;
  }
  effect (Call.claim f who) v = record v {
    claimed = λ g. if same f g then some who else v.claimed g;
  }
  effect (Call.purge_source src) v = record v {
    seen = λ b s i. not (same s src) && v.seen b s i;
    recorded = λ b s i. not (same s src) && v.recorded b s i;
  }
  effect (Call.seen b s i) v = v
  effect (Call.pending_digest b) v = v

  module _ (Fine : Text → Type 0) where
    -- Two views agree on the rows of fine names and on the claims.
    abbrev pub Agrees : View → View → Type 0
    Agrees v v' =
        ((b s i : Text)
          → Fine b
          → Fine s
          → (v.seen b s i ≡ v'.seen b s i) × (v.recorded b s i ≡ v'.recorded b s i))
        × ((f : Text) → v.claimed f ≡ v'.claimed f)

    abbrev pub IsFineCall : Call → Type 0
    IsFineCall (Call.mark_seen b s i) = Fine b × Fine s
    IsFineCall (Call.record_finding f) = Fine f.beacon × Fine f.signal.source
    IsFineCall (Call.claim f who) = Unit {0}
    IsFineCall (Call.purge_source s) = Fine s
    IsFineCall (Call.seen b s i) = Fine b × Fine s
    IsFineCall (Call.pending_digest b) = Fine b

    -- What a successful answer to a question says of the view. A digest holds findings of its
    -- beacon alone, and one for exactly the recorded rows of this beacon.
    abbrev pub IsTrue : Call → Reply → View → Type 0
    IsTrue (Call.seen b s i) (told (ok x)) v = x ≡ v.seen b s i
    IsTrue (Call.pending_digest b) (listed (ok fs)) v =
        All (λ f. same f.beacon b ≡ true) fs
        × ((s i : Text) → Fine s → any (is_of b s i) fs ≡ v.recorded b s i)
    IsTrue c r v = Unit {0}

    module _ (MayBeLost : Reply → Type 0) where
      -- A sequence of calls and answers is one of the specification's: each answer was true, and each
      -- call took its effect, but for calls with an answer of which the store says that the call may
      -- have had none.
      pub data Explains : List (Call × Reply) → View → View → Type 0 where
        finished : {v v' : View} → Agrees v v' → Explains [] v v'
        took_effect :
            {c : Call} {r : Reply} {log : List (Call × Reply)} {v v' : View}
            → IsTrue c r v
            → Explains log (effect c v) v'
            → Explains ((c, r) ∷ log) v v'
        was_lost :
            {c : Call} {r : Reply} {log : List (Call × Reply)} {v v' : View}
            → MayBeLost r
            → IsTrue c r v
            → Explains log v v'
            → Explains ((c, r) ∷ log) v v'

      -- What a store has to show: `view` reads the sets and the claims off the world, and `IsSound` is
      -- its invariant.
      pub record Implements {W : Type 0} (st : Store W) (view : W → View) (IsSound : W → Type 0)
          : Type 0 where
        pub keeps : (c : Call) (w : W) → IsFineCall c → IsSound w → IsSound (perform st c w).1
        pub is_true :
            (c : Call) (w : W) → IsFineCall c → IsSound w → IsTrue c (perform st c w).0 (view w)
        pub moves :
            (c : Call) (w : W)
            → IsFineCall c
            → IsSound w
            → Agrees (effect c (view w)) (view (perform st c w).1)
              ⊎ (MayBeLost (perform st c w).0 × Agrees (view w) (view (perform st c w).1))
