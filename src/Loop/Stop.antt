-- ===== src/Loop/Stop.antt =====
-- From wherever it stands, a goroutine can stop after the cancellation, with no further poll.
use if_sos_beacon.Base.{suc, ◌≡◌, refl, true, inl, inr, Bool-cases}
use if_sos_beacon.Base.Int.{pos, ltb_ℤ}
use if_sos_beacon.Loop.{
  Phase, delayed, checking, polling, beating, sleeping, stopped, Task, Move, delay_canceled,
  check_canceled, poll_over, beat, last_beat, sleep_canceled, HasStopped,
}

-- The moves of one goroutine after the cancellation.
pub data Moves (t : Task) : Task → Type 0 where
  rest : Moves t t
  then : {u v : Task} → Moves t u → Move true u v → Moves t v

pub record Stops (t : Task) : Type 0 where
  pub last : Task
  pub path : Moves t last
  pub is_stopped : HasStopped last
  pub same_polls : last.polls ≡ t.polls

stop_sleeping : (t : Task) → t.phase ≡ sleeping → Stops t
stop_sleeping t p = record {
  last = record t { phase = stopped };
  path = then rest (sleep_canceled p refl refl);
  is_stopped = refl;
  same_polls = refl;
}

stop_checking : (t : Task) → t.phase ≡ checking → Stops t
stop_checking t p = record {
  last = record t { phase = stopped };
  path = then rest (check_canceled p refl refl);
  is_stopped = refl;
  same_polls = refl;
}

stop_delayed : (t : Task) → t.phase ≡ delayed → Stops t
stop_delayed t p = record {
  last = record t { phase = stopped };
  path = then rest (delay_canceled p refl refl);
  is_stopped = refl;
  same_polls = refl;
}

-- The beat of a poll that is over, and the end of the goroutine.
stop_beating : (t u : Task) → Moves t u → u.phase ≡ beating → u.polls ≡ t.polls → Stops t
stop_beating t u m p e = elim (Bool-cases (ltb_ℤ (pos 0) u.interval)) [
  | inl loops ↦ record {
    last = record u { phase = stopped; beats = suc u.beats };
    path = then (then m (beat p loops refl)) (sleep_canceled refl refl refl);
    is_stopped = refl;
    same_polls = e;
  }
  | inr once ↦ record {
    last = record u { phase = stopped; beats = suc u.beats };
    path = then m (last_beat p once refl);
    is_stopped = refl;
    same_polls = e;
  }
]

stop_at : (t : Task) (p : Phase) → t.phase ≡ p → Stops t
stop_at t delayed p = stop_delayed t p
stop_at t checking p = stop_checking t p
stop_at t polling p =
    stop_beating t (record t { phase = beating }) (then rest (poll_over p refl)) refl refl
stop_at t beating p = stop_beating t t rest p refl
stop_at t sleeping p = stop_sleeping t p
stop_at t stopped p = record { last = t; path = rest; is_stopped = p; same_polls = refl }

pub stop : (t : Task) → Stops t
stop t = stop_at t t.phase refl
