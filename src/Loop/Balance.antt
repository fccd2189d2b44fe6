-- ===== src/Loop/Balance.antt =====
-- Every poll that was started is running or has given its beat.
use if_sos_beacon.Base.{
  ℕ, suc, ◌+◌, ◌≤◌, ◌≡◌, Bool, true, false, List, [], ◌∷◌, ◌++◌, All, length, All-append, arith,
  inl, inr, Bool-cases,
}
use if_sos_beacon.Base.Int.{pos, ltb_ℤ}
use if_sos_beacon.Base.Errors.{Result-cases}
use if_sos_beacon.Base.Go.{Platform}
use if_sos_beacon.Core.{Duration}
use if_sos_beacon.Config.{BeaconConfig}
use if_sos_beacon.Schedule.{resolve_interval}
use if_sos_beacon.Loop.{
  Phase, delayed, checking, polling, beating, sleeping, stopped, Task, start_task, start_with,
  tasks_from, all_tasks, Move, delay_over, delay_canceled, check_canceled, first_poll, poll_over,
  beat, last_beat, tick, sleep_canceled, Stage, starting, waiting, returned, System, HasStopped,
  Step, cancel, start, get_ready, move, all_done, Reach, here, next, run_loop,
}

-- A poll is on its way, up to its beat.
abbrev pub in_flight : Phase → ℕ
in_flight polling = 1
in_flight beating = 1
in_flight delayed = 0
in_flight checking = 0
in_flight sleeping = 0
in_flight stopped = 0

-- What a beacon without an interval can have polled.
abbrev Single : Phase → ℕ → Type 0
Single delayed n = n ≡ 0
Single checking n = n ≡ 0
Single polling n = n ≤ 1
Single beating n = n ≤ 1
Single sleeping n = ⊥
Single stopped n = n ≤ 1

abbrev AllowedPolls : Bool → Phase → ℕ → Type 0
AllowedPolls true p n = Unit {0}
AllowedPolls false p n = Single p n

pub record IsBalanced (t : Task) : Type 0 where
  pub balance : t.polls ≡ t.beats + in_flight t.phase
  pub limit : AllowedPolls (ltb_ℤ (pos 0) t.interval) t.phase t.polls

-- The bound on the polls goes from one phase to the next.
limit_moves :
    (t : Task) (p p' : Phase) (n : ℕ)
    → t.phase ≡ p
    → (Single p t.polls → Single p' n)
    → IsBalanced t
    → AllowedPolls (ltb_ℤ (pos 0) t.interval) p' n
limit_moves t p p' n e f h = elim (Bool-cases (ltb_ℤ (pos 0) t.interval)) [
  | inl loops ↦ rw loops tt
  | inr once ↦ rw once (f (rw (once, e) at h.limit))
]

Move-IsBalanced : {c : Bool} {t u : Task} → Move c t u → IsBalanced t → IsBalanced u
Move-IsBalanced {t} (delay_over p e) h = rw e (record {
  balance = rw p at h.balance;
  limit = limit_moves t delayed checking t.polls p (λ k. k) h;
})
Move-IsBalanced {t} (delay_canceled p c e) h = rw e (record {
  balance = rw p at h.balance;
  limit = limit_moves t delayed stopped t.polls p (λ k. omega (arith, k)) h;
})
Move-IsBalanced {t} (check_canceled p c e) h = rw e (record {
  balance = rw p at h.balance;
  limit = limit_moves t checking stopped t.polls p (λ k. omega (arith, k)) h;
})
Move-IsBalanced {t} (first_poll p c e) h = rw e (record {
  balance = omega (arith, rw p at h.balance);
  limit = limit_moves t checking polling (suc t.polls) p (λ k. omega (arith, k)) h;
})
Move-IsBalanced {t} (poll_over p e) h = rw e (record {
  balance = rw p at h.balance;
  limit = limit_moves t polling beating t.polls p (λ k. k) h;
})
Move-IsBalanced {t} (beat p i e) h =
    rw e (record { balance = omega (arith, rw p at h.balance); limit = rw i tt })
Move-IsBalanced {t} (last_beat p i e) h = rw e (record {
  balance = omega (arith, rw p at h.balance);
  limit = limit_moves t beating stopped t.polls p (λ k. k) h;
})
Move-IsBalanced {t} (tick p e) h = rw e (record {
  balance = omega (arith, rw p at h.balance);
  limit = limit_moves t sleeping polling (suc t.polls) p (λ k. absurd k) h;
})
Move-IsBalanced {t} (sleep_canceled p c e) h = rw e (record {
  balance = rw p at h.balance;
  limit = limit_moves t sleeping stopped t.polls p (λ k. absurd k) h;
})

-- The tasks that wait to be started, too.
abbrev pub to_start : Stage → List Task
to_start (starting ts) = ts
to_start waiting = []
to_start returned = []

abbrev pub IsFinished : Stage → List Task → Type 0
IsFinished (starting ts) us = Unit {0}
IsFinished waiting us = Unit {0}
IsFinished returned us = All HasStopped us

pub record Inv (s : System) : Type 0 where
  pub running : All IsBalanced s.tasks
  pub pending : All IsBalanced (to_start s.stage)
  pub finished : IsFinished s.stage s.tasks

-- A stopped task does not move.
Move-stopped : {c : Bool} {t u : Task} → Move c t u → HasStopped t → ⊥
Move-stopped (delay_over p e) h = ground arith
Move-stopped (delay_canceled p c e) h = ground arith
Move-stopped (check_canceled p c e) h = ground arith
Move-stopped (first_poll p c e) h = ground arith
Move-stopped (poll_over p e) h = ground arith
Move-stopped (beat p i e) h = ground arith
Move-stopped (last_beat p i e) h = ground arith
Move-stopped (tick p e) h = ground arith
Move-stopped (sleep_canceled p c e) h = ground arith

All-middle :
    (P : Task → Type 0) (xs ys : List Task) (t t' : Task)
    → (P t → P t')
    → All P (xs ++ t ∷ ys)
    → All P (xs ++ t' ∷ ys)
All-middle P [] ys t t' f (h, hs) = (f h, hs)
All-middle P (x ∷ xs) ys t t' f (h, hs) = (h, All-middle P xs ys t t' f hs)

move-IsFinished :
    {c : Bool} (g : Stage) (xs ys : List Task) (t t' : Task)
    → Move c t t'
    → IsFinished g (xs ++ t ∷ ys)
    → IsFinished g (xs ++ t' ∷ ys)
move-IsFinished (starting ts) xs ys t t' m h = tt
move-IsFinished waiting xs ys t t' m h = tt
move-IsFinished returned xs ys t t' m h =
    All-middle HasStopped xs ys t t' (λ k. absurd (Move-stopped m k)) h

Step-Inv : {s u : System} → Step s u → Inv s → Inv u
Step-Inv {s} (cancel e) h =
    rw e (record { running = h.running; pending = h.pending; finished = h.finished })
Step-Inv {s} (start t ts g e) h =
    let (first, rest) = rw g at h.pending in
    rw e (record {
      running = All-append IsBalanced s.tasks (t ∷ []) h.running (first, tt);
      pending = rest;
      finished = tt;
    })
Step-Inv {s} (get_ready g e) h = rw e (record { running = h.running; pending = tt; finished = tt })
Step-Inv {s} (move xs ys t t' e e' m) h = rw e' (record {
  running = All-middle IsBalanced xs ys t t' (Move-IsBalanced m) (rw e at h.running);
  pending = h.pending;
  finished = move-IsFinished s.stage xs ys t t' m (rw e at h.finished);
})
Step-Inv {s} (all_done g a e) h = rw e (record { running = h.running; pending = tt; finished = a })

start_task-IsBalanced : (i n : ℕ) (iv : Duration) → IsBalanced (start_task i n iv)
unfolding start_task
start_task-IsBalanced i n iv = record { balance = ground arith; limit = ground arith }

tasks_from-IsBalanced :
    (p : Platform) (global : Duration) (i n : ℕ) (bs : List BeaconConfig)
    → All IsBalanced (tasks_from p global i n bs)
unfolding tasks_from start_with
tasks_from-IsBalanced p global i n [] = tt
tasks_from-IsBalanced p global i n (b ∷ bs) =
    let rest = tasks_from-IsBalanced p global (suc i) n bs in
    elim (Result-cases (resolve_interval p b global)) [
      | inl (iv, e) ↦ rw e (start_task-IsBalanced i n iv, rest)
      | inr (x, e) ↦ rw e rest
    ]

pub run_loop-Inv :
    (p : Platform) (global : Duration) (bs : List BeaconConfig) (c : Bool)
    → Inv (run_loop p global bs c)
unfolding run_loop all_tasks
run_loop-Inv p global bs c = record {
  running = tt;
  pending = tasks_from-IsBalanced p global 0 (length bs) bs;
  finished = tt;
}

pub Reach-Inv : {s u : System} → Reach s u → Inv s → Inv u
Reach-Inv here h = h
Reach-Inv (next r st) h = Step-Inv st (Reach-Inv r h)

-- In every reachable state each goroutine has given a beat for each poll that it started, but for the
-- one in flight; a beacon without an interval has polled at most once; and once runLoop has returned,
-- every goroutine has stopped, with a beat for each of its polls.
pub Reach-balance :
    (p : Platform) (global : Duration) (bs : List BeaconConfig) (c : Bool) (s : System)
    → Reach (run_loop p global bs c) s
    → All IsBalanced s.tasks × IsFinished s.stage s.tasks
Reach-balance p global bs c s r =
    let h = Reach-Inv r (run_loop-Inv p global bs c) in (h.running, h.finished)
