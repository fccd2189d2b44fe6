-- ===== src/Loop.antt =====
-- cmd/sos-beacon/main.go, runLoop and loopBeacon: the goroutines of the long-running process, as a step
-- relation. The scheduler, the timers and the signal handler choose the next step. A poll is one phase
-- from its start to its end; what it does is Engine.Run.
pub mod Balance
pub mod Stop
pub mod Shutdown
pub mod Bound
use if_sos_beacon.Base.{
  ℕ, suc, ◌+◌, ◌≡◌, Bool, true, false, List, [], ◌∷◌, ◌++◌, All, length, if◌then◌else◌,
}
use if_sos_beacon.Base.Int.{pos, ltb_ℤ}
use if_sos_beacon.Base.Errors.{Result, ok, err}
use if_sos_beacon.Base.Go.{Platform}
use if_sos_beacon.Core.{Duration}
use if_sos_beacon.Config.{BeaconConfig}
use if_sos_beacon.Schedule.{resolve_interval, stagger_offset}

-- Where loopBeacon stands: in the select on the stagger, before the test of ctx.Err, in runBeacon,
-- before hm.Beat, in the select on the ticker, or behind its return.
pub data Phase : Type 0 where
  delayed checking polling beating sleeping stopped : Phase

-- One goroutine, with the polls that it has started and the beats that it has given.
pub record Task : Type 0 where
  pub interval : Duration
  pub phase : Phase
  pub polls : ℕ
  pub beats : ℕ

abbrev first_phase : Duration → Phase
first_phase stagger = if ltb_ℤ (pos 0) stagger then delayed else checking

-- The goroutine that runLoop starts for a beacon. `count` is the number of all beacons.
unfoldable pub start_task : ℕ → ℕ → Duration → Task
start_task index count iv = record {
  interval = iv;
  phase = first_phase (stagger_offset index count iv);
  polls = 0;
  beats = 0;
}

-- The loop over the beacons. One with a bad poll_interval is skipped.
unfoldable pub start_with : Result Duration → ℕ → ℕ → List Task → List Task
unfolding start_task
start_with (err e) index count rest = rest
start_with (ok iv) index count rest = start_task index count iv ∷ rest

unfoldable pub tasks_from : Platform → Duration → ℕ → ℕ → List BeaconConfig → List Task
unfolding start_with
tasks_from p global index count [] = []
tasks_from p global index count (b ∷ bs) =
    start_with (resolve_interval p b global) index count (tasks_from p global (suc index) count bs)

unfoldable pub all_tasks : Platform → Duration → List BeaconConfig → List Task
unfolding tasks_from
all_tasks p global bs = tasks_from p global 0 (length bs) bs

-- One step of a goroutine. Where the context is canceled and a timer has fired, a select takes either
-- way. A beacon with no interval polls once.
pub data Move (canceled : Bool) (t u : Task) : Type 0 where
  delay_over : t.phase ≡ delayed → u ≡ record t { phase = checking } → Move canceled t u
  delay_canceled :
      t.phase ≡ delayed → canceled ≡ true → u ≡ record t { phase = stopped } → Move canceled t u
  check_canceled :
      t.phase ≡ checking → canceled ≡ true → u ≡ record t { phase = stopped } → Move canceled t u
  first_poll :
      t.phase ≡ checking
      → canceled ≡ false
      → u ≡ record t { phase = polling; polls = suc t.polls }
      → Move canceled t u
  poll_over : t.phase ≡ polling → u ≡ record t { phase = beating } → Move canceled t u
  beat :
      t.phase ≡ beating
      → ltb_ℤ (pos 0) t.interval ≡ true
      → u ≡ record t { phase = sleeping; beats = suc t.beats }
      → Move canceled t u
  last_beat :
      t.phase ≡ beating
      → ltb_ℤ (pos 0) t.interval ≡ false
      → u ≡ record t { phase = stopped; beats = suc t.beats }
      → Move canceled t u
  tick :
      t.phase ≡ sleeping → u ≡ record t { phase = polling; polls = suc t.polls } → Move canceled t u
  sleep_canceled :
      t.phase ≡ sleeping → canceled ≡ true → u ≡ record t { phase = stopped } → Move canceled t u

-- Where runLoop stands: it starts the goroutines, then marks the process ready and waits for the
-- group, and returns.
pub data Stage : Type 0 where
  starting : List Task → Stage
  waiting : Stage
  returned : Stage

pub record System : Type 0 where
  pub stage : Stage
  pub tasks : List Task
  pub canceled : Bool

abbrev pub HasStopped : Task → Type 0
HasStopped t = t.phase ≡ stopped

pub data Step (s u : System) : Type 0 where
  cancel : u ≡ record s { canceled = true } → Step s u
  start :
      (t : Task) (ts : List Task)
      → s.stage ≡ starting (t ∷ ts)
      → u ≡ record s { stage = starting ts; tasks = s.tasks ++ t ∷ [] }
      → Step s u
  get_ready : s.stage ≡ starting [] → u ≡ record s { stage = waiting } → Step s u
  move :
      (xs ys : List Task) (t t' : Task)
      → s.tasks ≡ xs ++ t ∷ ys
      → u ≡ record s { tasks = xs ++ t' ∷ ys }
      → Move s.canceled t t'
      → Step s u
  all_done :
      s.stage ≡ waiting → All HasStopped s.tasks → u ≡ record s { stage = returned } → Step s u

pub data Reach (s : System) : System → Type 0 where
  here : Reach s s
  next : {t u : System} → Reach s t → Step t u → Reach s u

unfoldable pub run_loop : Platform → Duration → List BeaconConfig → Bool → System
unfolding all_tasks
run_loop p global bs canceled = record {
  stage = starting (all_tasks p global bs);
  tasks = [];
  canceled = canceled;
}
