-- ===== src/Tests/LoopTests.antt =====
-- One beacon polls, and the process is told to stop while it polls.
use if_sos_beacon.Base.{◌+◌, ◌*◌, ◌≤◌, arith, ◌≡◌, refl, true, false, [], ◌∷◌, All}
use if_sos_beacon.Base.Int.{pos}
use if_sos_beacon.Base.Go.{trim_space}
use if_sos_beacon.Loop.{
  Task, checking, polling, beating, sleeping, poll_over, beat, System, starting, run_loop,
  all_tasks, cancel, start, move, first_poll, Reach, here, next, start_task, start_with, tasks_from,
}
use if_sos_beacon.Loop.Balance.{IsBalanced, IsFinished, Reach-balance}
use if_sos_beacon.Loop.Shutdown.{total_polls, CanReturn}
use if_sos_beacon.Loop.Bound.{Run, still, then, steps_left, Run-CanReturn}
use if_sos_beacon.Schedule.{resolve_interval, stagger_offset}
use if_sos_beacon.Tests.Fixtures.{ascii, beacon}

abbrev task : Task
task = record { interval = pos 60000000000; phase = checking; polls = 0; beats = 0 }

abbrev running : Task
running = record task { phase = polling; polls = 1 }

abbrev begun : System
begun = run_loop ascii (pos 60000000000) (beacon ∷ []) false

abbrev stopping : System
stopping = record { stage = starting []; tasks = running ∷ []; canceled = true }

one_task : begun ≡ record { stage = starting (task ∷ []); tasks = []; canceled = false }
unfolding run_loop all_tasks tasks_from start_with start_task resolve_interval stagger_offset
    trim_space
one_task = refl

steps : Reach begun stopping
steps = rw one_task (
    next
      (next (next here (start task [] refl refl))
        (move [] [] task running refl refl (first_poll refl refl refl)))
      (cancel refl))

Reach-balance_example : All IsBalanced (running ∷ []) × IsFinished (starting []) (running ∷ [])
Reach-balance_example = Reach-balance ascii (pos 60000000000) (beacon ∷ []) false stopping steps

-- The poll ends, gives its beat, and the goroutine stops.
abbrev over : System
over = record stopping { tasks = record running { phase = beating } ∷ [] }

abbrev rested : System
rested = record stopping { tasks = record running { phase = sleeping; beats = 1 } ∷ [] }

over-Run : Run stopping over 1
over-Run =
    then still
      (move [] [] running (record running { phase = beating }) refl refl (poll_over refl refl))
      (ground arith)

rested-Run : Run stopping rested 2
rested-Run =
    then over-Run
      (move [] [] (record running { phase = beating })
        (record running { phase = sleeping; beats = 1 }) refl refl (beat refl refl refl))
      (ground arith)

Run-CanReturn_example :
    (2 + 3 * total_polls (running ∷ [])
      ≤ steps_left stopping + 3 * total_polls (record running { phase = sleeping; beats = 1 } ∷ []))
    × CanReturn rested
Run-CanReturn_example =
    Run-CanReturn ascii (pos 60000000000) (beacon ∷ []) false stopping rested 2 steps refl
      rested-Run
