-- ===== src/Lifecycle/Tasks.antt =====
-- relay_lifecycle.ts: events, in any order, over the tasks that wait.
use remote_pi.Base.{ℕ, zero, suc, Bool, Option, none, some, List, [], ◌∷◌}
use remote_pi.Lifecycle.Types.{Task, Lifecycle}
use remote_pi.Lifecycle.Operations.{
  Outcome, start, stop, resume, fire_timer, on_relay_close, set_disposed,
}

pub data Event : Type 0 where
  start_event stop_event timer_event : Event
  dispose_event : Bool → Event
  close_event : ℕ → Event
  -- The task at this place of the list goes on.
  resume_event : ℕ → Outcome → Event

-- The task at a place, and the others.
unfoldable pub take_at : ℕ → List Task → Option (Task × List Task)
take_at n [] = none
take_at zero (t ∷ ts) = some (t, ts)
take_at (suc n) (t ∷ ts) = elim (take_at n ts) [ none ↦ none | some (u, us) ↦ some (u, t ∷ us) ]

unfoldable pub resume_taken : Outcome → Option (Task × List Task) → Lifecycle → Lifecycle
resume_taken outcome none s = s
resume_taken outcome (some (t, rest)) s = resume t outcome (record s { tasks = rest })

unfoldable pub step : Event → Lifecycle → Lifecycle
step start_event s = start s
step stop_event s = stop s
step timer_event s = fire_timer s
step (dispose_event value) s = set_disposed value s
step (close_event closed) s = on_relay_close closed s
step (resume_event place outcome) s = resume_taken outcome (take_at place s.tasks) s

unfoldable pub run : List Event → Lifecycle → Lifecycle
run [] s = s
run (e ∷ events) s = run events (step e s)
