-- ===== src/Loop/Bound.antt =====
-- How long runLoop can go on after the cancellation.
use if_sos_beacon.Base.{
  ℕ, suc, ◌+◌, ◌*◌, ◌≤◌, ◌≡◌, ◌≢◌, refl, ap, sym, ◌∙◌, Bool, true, List, [], ◌∷◌, ◌++◌, arith,
}
use if_sos_beacon.Base.Go.{Platform}
use if_sos_beacon.Core.{Duration}
use if_sos_beacon.Config.{BeaconConfig}
use if_sos_beacon.Loop.{
  Phase, delayed, checking, polling, beating, sleeping, stopped, Task, Move, delay_over,
  delay_canceled, check_canceled, first_poll, poll_over, beat, last_beat, tick, sleep_canceled,
  Stage, starting, waiting, returned, System, Step, cancel, start, get_ready, move, all_done, Reach,
  next, run_loop,
}
use if_sos_beacon.Loop.Shutdown.{total_polls, total_polls-append, CanReturn, run_loop-CanReturn}

-- The steps that a goroutine has left without a tick.
abbrev left_at : Phase → ℕ
left_at delayed = 2
left_at checking = 1
left_at polling = 3
left_at beating = 2
left_at sleeping = 1
left_at stopped = 0

abbrev left_of : List Task → ℕ
left_of [] = 0
left_of (t ∷ ts) = left_at t.phase + left_of ts

-- Each goroutine that waits to be started takes one step more.
abbrev to_come : List Task → ℕ
to_come [] = 2
to_come (t ∷ ts) = suc (left_at t.phase + to_come ts)

abbrev left_before : Stage → ℕ
left_before (starting ts) = to_come ts
left_before waiting = 1
left_before returned = 0

abbrev pub steps_left : System → ℕ
steps_left s = left_before s.stage + left_of s.tasks

-- A run of as many steps, each of which changes the state.
pub data Run (s : System) : System → ℕ → Type 0 where
  still : Run s s 0
  then : {t u : System} {n : ℕ} → Run s t n → Step t u → t ≢ u → Run s u (suc n)

Run-Reach : {r s u : System} {n : ℕ} → Reach r s → Run s u n → Reach r u
Run-Reach r still = r
Run-Reach r (then h st c) = next (Run-Reach r h) st

-- A tick starts a poll and has three steps more to go; every other move has one less.
Move-left :
    {t u : Task}
    → Move true t u
    → suc (left_at u.phase + 3 * t.polls) ≤ left_at t.phase + 3 * u.polls
Move-left (delay_over p e) = rw (e, p) (omega arith)
Move-left (delay_canceled p c e) = rw (e, p) (omega arith)
Move-left (check_canceled p c e) = rw (e, p) (omega arith)
Move-left (first_poll p c e) = absurd (ground (arith, c))
Move-left (poll_over p e) = rw (e, p) (omega arith)
Move-left (beat p i e) = rw (e, p) (omega arith)
Move-left (last_beat p i e) = rw (e, p) (omega arith)
Move-left (tick p e) = rw (e, p) (omega arith)
Move-left (sleep_canceled p c e) = rw (e, p) (omega arith)

left_of-append : (xs ys : List Task) → left_of (xs ++ ys) ≡ left_of xs + left_of ys
left_of-append [] ys = ground arith
left_of-append (x ∷ xs) ys = omega (arith, left_of-append xs ys)

Step-left :
    {s u : System}
    → Step s u
    → s ≢ u
    → s.canceled ≡ true
    → suc (steps_left u + 3 * total_polls s.tasks) ≤ steps_left s + 3 * total_polls u.tasks
Step-left {s} (cancel e) change k = absurd (change (ap (λ b. record s { canceled = b }) k ∙ sym e))
Step-left {s} (start t ts g e) change k =
    rw (e, g) (omega (arith, left_of-append s.tasks (t ∷ []), total_polls-append s.tasks (t ∷ [])))
Step-left {s} (get_ready g e) change k = rw (e, g) (omega arith)
Step-left {s} (move xs ys t t' e e' m) change k =
    rw (e', e)
      (omega (
        arith,
        Move-left (rw k at m),
        left_of-append xs (t ∷ ys),
        left_of-append xs (t' ∷ ys),
        total_polls-append xs (t ∷ ys),
        total_polls-append xs (t' ∷ ys),
      ))
Step-left {s} (all_done g a e) change k = rw (e, g) (omega arith)

Step-canceled : {s u : System} → Step s u → s.canceled ≡ true → u.canceled ≡ true
Step-canceled (cancel e) k = rw e refl
Step-canceled (start t ts g e) k = rw e k
Step-canceled (get_ready g e) k = rw e k
Step-canceled (move xs ys t t' e e' m) k = rw e' k
Step-canceled (all_done g a e) k = rw e k

Run-canceled : {s u : System} {n : ℕ} → Run s u n → s.canceled ≡ true → u.canceled ≡ true
Run-canceled still k = k
Run-canceled (then h st c) k = Step-canceled st (Run-canceled h k)

Run-left :
    {s u : System} {n : ℕ}
    → Run s u n
    → s.canceled ≡ true
    → n + steps_left u + 3 * total_polls s.tasks ≤ steps_left s + 3 * total_polls u.tasks
Run-left still k = omega arith
Run-left (then h st c) k = omega (arith, Run-left h k, Step-left st c (Run-canceled h k))

-- Once the context is canceled, a run of `n` steps, each of which changes the state, has
-- `n ≤ steps_left s + 3 * (the polls that it started)`, where `steps_left` counts at most three steps
-- for a goroutine, one for each that is to be started, and two for runLoop. So a run that starts no
-- poll ends. From wherever it stands there are steps, none of which starts a poll, to the return of
-- runLoop with every goroutine stopped.
pub Run-CanReturn :
    (p : Platform) (global : Duration) (bs : List BeaconConfig) (c : Bool) (s u : System) (n : ℕ)
    → Reach (run_loop p global bs c) s
    → s.canceled ≡ true
    → Run s u n
    → (n + 3 * total_polls s.tasks ≤ steps_left s + 3 * total_polls u.tasks) × CanReturn u
Run-CanReturn p global bs c s u n r k h = (
  omega (arith, Run-left h k),
  run_loop-CanReturn p global bs c u (Run-Reach r h) (Run-canceled h k),
)
