-- ===== src/Store/Contract/Refine.antt =====
-- A store that shows it for single calls refines the specification over all sequences of calls.
use if_sos_beacon.Base.{
  Text, Bool, refl, sym, ap, ◌∙◌, some, if◌then◌else◌, List, [], ◌∷◌, All, inl, inr, arith,
}
use if_sos_beacon.Base.Errors.{ok, err}
use if_sos_beacon.Core.{Store}
use if_sos_beacon.Store.Contract.{
  View, Call, Reply, acknowledged, told, listed, perform, perform_all, effect, Agrees, IsFineCall,
  IsTrue, Explains, finished, took_effect, was_lost, Implements,
}

module _ (same : Text → Text → Bool) (Fine : Text → Type 0) where
  abbrev FineLog : List (Call × Reply) → Type 0
  FineLog log = All (λ cr. IsFineCall same Fine cr.0) log

  Agrees-trans : (u v x : View) → Agrees same Fine u v → Agrees same Fine v x → Agrees same Fine u x
  Agrees-trans u v x h k =
      (λ b s i fb fs. ground (arith, h.0 b s i fb fs, k.0 b s i fb fs), λ f. h.1 f ∙ k.1 f)

  effect-Agrees :
      (c : Call) (v v' : View)
      → Agrees same Fine v v'
      → Agrees same Fine (effect same c v) (effect same c v')
  effect-Agrees (Call.mark_seen b s i) v v' h =
      (λ b' s' i' fb fs. ground (arith, h.0 b' s' i' fb fs), h.1)
  effect-Agrees (Call.record_finding f) v v' h =
      (λ b s i fb fs. ground (arith, h.0 b s i fb fs), h.1)
  effect-Agrees (Call.claim f who) v v' h =
      (h.0, λ g. ap (λ old. if same f g then some who else old) (h.1 g))
  effect-Agrees (Call.purge_source src) v v' h =
      (λ b s i fb fs. ground (arith, h.0 b s i fb fs), h.1)
  effect-Agrees (Call.seen b s i) v v' h = h
  effect-Agrees (Call.pending_digest b) v v' h = h

  IsTrue-Agrees :
      (c : Call) (r : Reply) (v v' : View)
      → IsFineCall same Fine c
      → Agrees same Fine v v'
      → IsTrue same Fine c r v'
      → IsTrue same Fine c r v
  IsTrue-Agrees (Call.seen b s i) (told (ok x)) v v' (fb, fs) h t = t ∙ sym (h.0 b s i fb fs).0
  IsTrue-Agrees (Call.seen b s i) (told (err e)) v v' fine h t = tt
  IsTrue-Agrees (Call.seen b s i) (acknowledged e) v v' fine h t = tt
  IsTrue-Agrees (Call.seen b s i) (listed e) v v' fine h t = tt
  IsTrue-Agrees (Call.pending_digest b) (listed (ok fs)) v v' fb h t =
      (t.0, λ s i f. t.1 s i f ∙ sym (h.0 b s i fb f).1)
  IsTrue-Agrees (Call.pending_digest b) (listed (err e)) v v' fine h t = tt
  IsTrue-Agrees (Call.pending_digest b) (acknowledged e) v v' fine h t = tt
  IsTrue-Agrees (Call.pending_digest b) (told e) v v' fine h t = tt
  IsTrue-Agrees (Call.mark_seen b s i) r v v' fine h t = t
  IsTrue-Agrees (Call.record_finding f) r v v' fine h t = t
  IsTrue-Agrees (Call.claim f who) r v v' fine h t = t
  IsTrue-Agrees (Call.purge_source s) r v v' fine h t = t

  module _ (MayBeLost : Reply → Type 0) where
    Explains-Agrees :
        (u v x : View) (log : List (Call × Reply))
        → FineLog log
        → Agrees same Fine u v
        → Explains same Fine MayBeLost log v x
        → Explains same Fine MayBeLost log u x
    Explains-Agrees u v x [] fine h (finished k) = finished (Agrees-trans u v x h k)
    Explains-Agrees u v x ((c, r) ∷ log) (fc, fine) h (took_effect t k) =
        took_effect (IsTrue-Agrees c r u v fc h t)
          (Explains-Agrees (effect same c u) (effect same c v) x log fine (effect-Agrees c u v h) k)
    Explains-Agrees u v x ((c, r) ∷ log) (fc, fine) h (was_lost l t k) =
        was_lost l (IsTrue-Agrees c r u v fc h t) (Explains-Agrees u v x log fine h k)

    module _ {W : Type 0} (st : Store W) (view : W → View) (IsSound : W → Type 0)
        (laws : Implements same Fine MayBeLost st view IsSound) where
      perform_all-FineLog :
          (cs : List Call) (w : W) → All (IsFineCall same Fine) cs → FineLog (perform_all st cs w).0
      perform_all-FineLog [] w fine = tt
      perform_all-FineLog (c ∷ cs) w (fc, fine) =
          (fc, perform_all-FineLog cs (perform st c w).1 fine)

      pub perform_all-Explains :
          (cs : List Call) (w : W)
          → All (IsFineCall same Fine) cs
          → IsSound w
          → Explains same Fine MayBeLost
              (perform_all st cs w).0
              (view w)
              (view (perform_all st cs w).1)
      perform_all-Explains [] w fine sound = finished (λ b s i fb fs. (refl, refl), λ f. refl)
      perform_all-Explains (c ∷ cs) w (fc, fine) sound =
          let w' = (perform st c w).1 in
          let rest = perform_all-Explains cs w' fine (laws.keeps c w fc sound) in
          let log = perform_all-FineLog cs w' fine in
          elim (laws.moves c w fc sound) [
            | inl now ↦
                took_effect (laws.is_true c w fc sound) (Explains-Agrees _ _ _ _ log now rest)
            | inr (lost, still) ↦
                was_lost lost (laws.is_true c w fc sound) (Explains-Agrees _ _ _ _ log still rest)
          ]
