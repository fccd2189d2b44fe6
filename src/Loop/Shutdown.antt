-- ===== src/Loop/Shutdown.antt =====
-- From every canceled state runLoop can return, with no further poll.
use if_sos_beacon.Base.{
  ℕ, suc, ◌+◌, ◌≡◌, refl, ap, sym, ◌∙◌, Bool, true, List, [], ◌∷◌, ◌++◌, All, length, arith, inl,
  inr, append_assoc, append-nil,
}
use if_sos_beacon.Base.Errors.{Result-cases}
use if_sos_beacon.Base.Go.{Platform}
use if_sos_beacon.Core.{Duration}
use if_sos_beacon.Config.{BeaconConfig}
use if_sos_beacon.Schedule.{resolve_interval}
use if_sos_beacon.Loop.{
  Task, start_task, start_with, tasks_from, all_tasks, Stage, starting, waiting, returned, System,
  HasStopped, Step, cancel, start, get_ready, move, all_done, Reach, here, next, run_loop,
}
use if_sos_beacon.Loop.Balance.{to_start, IsFinished, Reach-Inv, run_loop-Inv}
use if_sos_beacon.Loop.Stop.{Moves, rest, then, stop}

-- All the polls that were started.
abbrev pub total_polls : List Task → ℕ
total_polls [] = 0
total_polls (t ∷ ts) = t.polls + total_polls ts

pub total_polls-append :
    (xs ys : List Task) → total_polls (xs ++ ys) ≡ total_polls xs + total_polls ys
total_polls-append [] ys = ground arith
total_polls-append (x ∷ xs) ys = omega (arith, total_polls-append xs ys)

abbrev canceled_at : Stage → List Task → System
canceled_at g ts = record { stage = g; tasks = ts; canceled = true }

move_on :
    {s : System} (g : Stage) (xs ys : List Task) (t u : Task)
    → Moves t u
    → Reach s (canceled_at g (xs ++ t ∷ ys))
    → Reach s (canceled_at g (xs ++ u ∷ ys))
move_on g xs ys t u rest r = r
move_on g xs ys t u (then {u = v} m n) r =
    next (move_on g xs ys t v m r) (move xs ys v u refl refl n)

-- A state behind `s` in which the goroutines `xs` are as they were and the others have stopped.
record StopsAll (s : System) (g : Stage) (xs ts : List Task) : Type 0 where
  ends : List Task
  reach : Reach s (canceled_at g (xs ++ ends))
  all_stopped : All HasStopped ends
  same_total : total_polls ends ≡ total_polls ts

stop_all :
    {s : System} (g : Stage) (xs ts : List Task)
    → Reach s (canceled_at g (xs ++ ts))
    → StopsAll s g xs ts
stop_all g xs [] r = record { ends = []; reach = r; all_stopped = tt; same_total = refl }
stop_all {s = s} g xs (t ∷ ts) r =
    let k = stop t in
    let moved = move_on g xs ts t k.last k.path r in
    let h =
      stop_all {s = s} g (xs ++ k.last ∷ []) ts (rw (append_assoc xs (k.last ∷ []) ts) moved) in
    record {
      ends = k.last ∷ h.ends;
      reach = rw (append_assoc xs (k.last ∷ []) h.ends) at h.reach;
      all_stopped = (k.is_stopped, h.all_stopped);
      same_total = omega (arith, h.same_total, k.same_polls);
    }

start_all :
    {s : System} (ts us : List Task)
    → Reach s (canceled_at (starting ts) us)
    → Reach s (canceled_at (starting []) (us ++ ts))
start_all [] us r = rw (append-nil us) r
start_all {s = s} (t ∷ ts) us r =
    rw (sym (append_assoc us (t ∷ []) ts))
      (start_all {s = s} ts (us ++ t ∷ []) (next r (start t ts refl refl)))

-- A way to the return of runLoop with every goroutine stopped and no poll begun after `s`.
pub record CanReturn (s : System) : Type 0 where
  pub final : System
  pub reach : Reach s final
  pub is_returned : final.stage ≡ returned
  pub all_stopped : All HasStopped final.tasks
  pub same_polls : total_polls final.tasks ≡ total_polls s.tasks

finish :
    (s : System) (ts : List Task)
    → Reach s (canceled_at waiting ts)
    → total_polls ts ≡ total_polls s.tasks
    → CanReturn s
finish s ts r e =
    let h = stop_all {s = s} waiting [] ts r in
    record {
      final = canceled_at returned h.ends;
      reach = next h.reach (all_done refl h.all_stopped refl);
      is_returned = refl;
      all_stopped = h.all_stopped;
      same_polls = h.same_total ∙ e;
    }

return_from :
    (g : Stage) (ts : List Task)
    → total_polls (to_start g) ≡ 0
    → IsFinished g ts
    → CanReturn (canceled_at g ts)
return_from (starting ws) ts e f =
    finish (canceled_at (starting ws) ts) (ts ++ ws)
      (next (start_all {s = canceled_at (starting ws) ts} ws ts here) (get_ready refl refl))
      (omega (arith, e, total_polls-append ts ws))
return_from waiting ts e f = finish (canceled_at waiting ts) ts here refl
return_from returned ts e f = record {
  final = canceled_at returned ts;
  reach = here;
  is_returned = refl;
  all_stopped = f;
  same_polls = refl;
}

-- A goroutine that waits to be started has not polled.
Step-unstarted :
    {s u : System}
    → Step s u
    → total_polls (to_start s.stage) ≡ 0
    → total_polls (to_start u.stage) ≡ 0
Step-unstarted (cancel e) h = rw e h
Step-unstarted (start t ts g e) h = rw e (omega (arith, rw g at h))
Step-unstarted (get_ready g e) h = rw e refl
Step-unstarted (move xs ys t t' e e' m) h = rw e' h
Step-unstarted (all_done g a e) h = rw e refl

Reach-unstarted :
    {s u : System}
    → Reach s u
    → total_polls (to_start s.stage) ≡ 0
    → total_polls (to_start u.stage) ≡ 0
Reach-unstarted here h = h
Reach-unstarted (next r st) h = Step-unstarted st (Reach-unstarted r h)

tasks_from-unstarted :
    (p : Platform) (global : Duration) (i n : ℕ) (bs : List BeaconConfig)
    → total_polls (tasks_from p global i n bs) ≡ 0
unfolding tasks_from start_with start_task
tasks_from-unstarted p global i n [] = refl
tasks_from-unstarted p global i n (b ∷ bs) =
    let rest = tasks_from-unstarted p global (suc i) n bs in
    elim (Result-cases (resolve_interval p b global)) [
      | inl (iv, e) ↦ rw e (omega (arith, rest))
      | inr (x, e) ↦ rw e rest
    ]

run_loop-unstarted :
    (p : Platform) (global : Duration) (bs : List BeaconConfig) (c : Bool)
    → total_polls (to_start (run_loop p global bs c).stage) ≡ 0
unfolding run_loop all_tasks
run_loop-unstarted p global bs c = tasks_from-unstarted p global 0 (length bs) bs

-- From every reachable state in which the context is canceled, wherever each goroutine stands, there
-- are steps to a state in which runLoop has returned, every goroutine has stopped, and no poll was
-- started that had not been started before.
pub run_loop-CanReturn :
    (p : Platform) (global : Duration) (bs : List BeaconConfig) (c : Bool) (s : System)
    → Reach (run_loop p global bs c) s
    → s.canceled ≡ true
    → CanReturn s
run_loop-CanReturn p global bs c s r k =
    let whole : canceled_at s.stage s.tasks ≡ s = ap (λ b. record s { canceled = b }) (sym k) in
    let f = (Reach-Inv r (run_loop-Inv p global bs c)).finished in
    rw (sym whole)
      (return_from s.stage s.tasks (Reach-unstarted r (run_loop-unstarted p global bs c)) f)
