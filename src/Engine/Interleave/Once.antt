-- ===== src/Engine/Interleave/Once.antt =====
-- A finding is posted at most once, however the goroutines interleave.
use if_sos_beacon.Base.{
  Text, ◌≤◌, ◌≡◌, ◌≢◌, refl, true, false, ◌⊎◌, inl, inr, Bool-cases, List, [], ◌∷◌, ◌++◌, ◌=ᵗ◌,
  =ᵗ_iff, All, arith,
}
use if_sos_beacon.Core.{Signal}
use if_sos_beacon.Engine.Pipeline.{Env}
use if_sos_beacon.Engine.Pipeline.Dedupe.{DedupeLaws, is_row_of, posts, Posted}
use if_sos_beacon.Engine.Pipeline.Trace.{Log}
use if_sos_beacon.Engine.Pipeline.Script.{finished, script_of}
use if_sos_beacon.Engine.Interleave.{Worker, Pool, Turn, take_up, call, turn, Reach, here, next}
use if_sos_beacon.Engine.Interleave.Scripts.{Harmless, script_of-Harmless, script_of-Asking}
use if_sos_beacon.Engine.Interleave.Roles.{
  Quiet, Role, harmless, asking, cleared, owing, Role-Quiet, Role-bound, perform-Harmless,
  perform-Role,
}

-- No two goroutines poll for one beacon name.
abbrev pub Apart : {W : Type 0} → List (Worker W) → Type 0
Apart [] = Unit {0}
Apart (t ∷ ts) = All (λ u. u.name ≢ t.name) ts × Apart ts

module _ {W : Type 0} (Marked : Text → Text → Text → W → Type 0) where
  -- The environments of a goroutine are those of its beacon, over a store that keeps the laws.
  abbrev pub Works : Worker W → Type 0
  Works t =
      DedupeLaws Marked t.env × All (λ j. (j.0.cfg.name ≡ t.name) × DedupeLaws Marked j.0) t.coming

  -- It has not begun.
  abbrev pub IsReady : Worker W → Type 0
  IsReady t = (t.script ≡ finished) × Works t

  module _ (b src i : Text) where
    abbrev Foreign : Worker W → Type 0
    Foreign t = ((t.name =ᵗ b) ≡ false) × Harmless b src i t.script × Works t

    -- At most one goroutine is of the row's beacon.
    abbrev Group : W × Log → List (Worker W) → Type 0
    Group wl [] = Posted Marked b src i wl
    Group wl (t ∷ ts) =
        (Foreign t × Group wl ts) ⊎ (Works t × Role Marked b src i t.script wl × All Foreign ts)

    foreign_row :
        (e : Env W) (s : Signal) (name : Text)
        → (name =ᵗ b) ≡ false
        → e.cfg.name ≡ name
        → is_row_of b src i e.cfg.name s ≡ false
    foreign_row e s name other same = rw (same, other) refl

    Foreign-Turn :
        (t u : Worker W) (wl wl' : W × Log)
        → Turn t wl u wl'
        → Foreign t
        → Foreign u × Quiet Marked b src i wl wl'
    Foreign-Turn t u wl wl' (take_up e s rest idle jobs eu ew) (other, h, (laws, coming)) =
        let ((same, law), later) = rw jobs at coming in
        rw (eu, ew)
          (
            (
              other,
              script_of-Harmless b src i e s (foreign_row e s t.name other same),
              (law, later),
            ),
            record { same_posts = refl; stays = λ m. m },
          )
    Foreign-Turn t u wl wl' (call eu ew) (other, h, (laws, coming)) =
        let (h', q) = perform-Harmless Marked b src i t.env laws t.script wl h in
        rw (eu, ew) ((other, h', (laws, coming)), q)

    idle-Posted : (wl : W × Log) → Role Marked b src i finished wl → Posted Marked b src i wl
    idle-Posted wl (harmless h p) = p
    idle-Posted wl (asking h p) = p
    idle-Posted wl (cleared h p) = (omega arith, inl p)
    idle-Posted wl (owing h p) = absurd h

    take_up-Role :
        (e : Env W) (s : Signal) (wl : W × Log)
        → Posted Marked b src i wl
        → Role Marked b src i (script_of e s) wl
    take_up-Role e s wl p = elim (Bool-cases (is_row_of b src i e.cfg.name s)) [
      | inl own ↦ asking (script_of-Asking b src i e s own) p
      | inr other ↦ harmless (script_of-Harmless b src i e s other) p
    ]

    own-Turn :
        (t u : Worker W) (wl wl' : W × Log)
        → Turn t wl u wl'
        → Works t
        → Role Marked b src i t.script wl
        → Works u × Role Marked b src i u.script wl'
    own-Turn t u wl wl' (take_up e s rest idle jobs eu ew) (laws, coming) r =
        let ((same, law), later) = rw jobs at coming in
        rw (eu, ew) ((law, later), take_up-Role e s wl (idle-Posted wl (rw idle at r)))
    own-Turn t u wl wl' (call eu ew) (laws, coming) r =
        rw (eu, ew) ((laws, coming), perform-Role Marked b src i t.env laws t.script wl r)

    Group-Quiet :
        (ts : List (Worker W)) (wl wl' : W × Log)
        → Quiet Marked b src i wl wl'
        → Group wl ts
        → Group wl' ts
    Group-Quiet [] wl wl' q p =
        idle-Posted wl' (Role-Quiet Marked b src i finished wl wl' q (harmless tt p))
    Group-Quiet (t ∷ ts) wl wl' q (inl (f, g)) = inl (f, Group-Quiet ts wl wl' q g)
    Group-Quiet (t ∷ ts) wl wl' q (inr (k, r, fs)) =
        inr (k, Role-Quiet Marked b src i t.script wl wl' q r, fs)

    All-Turn :
        (xs ys : List (Worker W)) (t u : Worker W) (wl wl' : W × Log)
        → Turn t wl u wl'
        → All Foreign (xs ++ t ∷ ys)
        → All Foreign (xs ++ u ∷ ys) × Quiet Marked b src i wl wl'
    All-Turn [] ys t u wl wl' m (f, fs) = let (f', q) = Foreign-Turn t u wl wl' m f in ((f', fs), q)
    All-Turn (x ∷ xs) ys t u wl wl' m (f, fs) =
        let (fs', q) = All-Turn xs ys t u wl wl' m fs in ((f, fs'), q)

    Group-Turn :
        (xs ys : List (Worker W)) (t u : Worker W) (wl wl' : W × Log)
        → Turn t wl u wl'
        → Group wl (xs ++ t ∷ ys)
        → Group wl' (xs ++ u ∷ ys)
    Group-Turn [] ys t u wl wl' m (inl (f, g)) =
        let (f', q) = Foreign-Turn t u wl wl' m f in inl (f', Group-Quiet ys wl wl' q g)
    Group-Turn [] ys t u wl wl' m (inr (k, r, fs)) =
        let (k', r') = own-Turn t u wl wl' m k r in inr (k', r', fs)
    Group-Turn (x ∷ xs) ys t u wl wl' m (inl (f, g)) = inl (f, Group-Turn xs ys t u wl wl' m g)
    Group-Turn (x ∷ xs) ys t u wl wl' m (inr (k, r, fs)) =
        let (fs', q) = All-Turn xs ys t u wl wl' m fs in
        inr (k, Role-Quiet Marked b src i x.script wl wl' q r, fs')

    Group-bound : (wl : W × Log) (ts : List (Worker W)) → Group wl ts → posts b src i wl.1 ≤ 1
    Group-bound wl [] p = p.0
    Group-bound wl (t ∷ ts) (inl (f, g)) = Group-bound wl ts g
    Group-bound wl (t ∷ ts) (inr (k, r, fs)) = Role-bound Marked b src i t.script wl r

    Reach-Group : {p q : Pool W} → Reach p q → Group p.world p.workers → Group q.world q.workers
    Reach-Group here g = g
    Reach-Group (next {q = q} {r = r} path (turn xs ys t u e m e')) g =
        rw e' (Group-Turn xs ys t u q.world r.world m (rw e at (Reach-Group path g)))

    ready-Foreign : (t : Worker W) → IsReady t → (t.name =ᵗ b) ≡ false → Foreign t
    ready-Foreign t (idle, k) other = (other, rw idle tt, k)

    others-Foreign :
        (name : Text) (ts : List (Worker W))
        → (name =ᵗ b) ≡ true
        → All (λ u. u.name ≢ name) ts
        → All IsReady ts
        → All Foreign ts
    others-Foreign name [] own apart ready = tt
    others-Foreign name (u ∷ us) own (ne, apart) (r, ready) = (
      ready-Foreign u r (ground (arith, ne, =ᵗ_iff name b, =ᵗ_iff u.name b)),
      others-Foreign name us own apart ready,
    )

    start-Group : (ts : List (Worker W)) (w : W) → Apart ts → All IsReady ts → Group (w, []) ts
    start-Group [] w apart ready = (omega arith, inl refl)
    start-Group (t ∷ ts) w (ne, apart) (r, ready) = elim (Bool-cases (t.name =ᵗ b)) [
      | inl own ↦
          inr (
            r.1,
            rw r.0 (harmless tt (omega arith, inl refl)),
            others-Foreign t.name ts own ne ready,
          )
      | inr other ↦ inl (ready-Foreign t r other, start-Group ts w apart ready)
    ]

    -- However the calls of the goroutines interleave, the sink accepts at most one post for each beacon,
    -- source and id, if no two goroutines poll for the same beacon name.
    pub interleaved_posts :
        (ts : List (Worker W)) (w : W) (q : Pool W)
        → Apart ts
        → All IsReady ts
        → Reach (record { workers = ts; world = (w, []) }) q
        → posts b src i q.world.1 ≤ 1
    interleaved_posts ts w q apart ready path =
        Group-bound q.world q.workers (Reach-Group path (start-Group ts w apart ready))
