-- ===== src/Lifecycle/Stopped.antt =====
-- relay_lifecycle.ts: what `stop` ends.
use remote_pi.Base.{
  ◌+◌, ◌≡◌, refl, inl, inr, Bool, true, false, none, List, [], ◌∷◌, ◌++◌, arith, Option-cases,
}
use remote_pi.Lifecycle.Types.{
  idle, Task, loading_identity, building_initial_options, connecting_initial,
  building_reconnect_options, connecting_reconnect, clearing_initial_attempt, Lifecycle, new,
  is_reconnect_current,
}
use remote_pi.Lifecycle.Kept.{
  close_candidate_once-SameFlight, clear_candidate-SameFlight, stop-SameFlight,
}
use remote_pi.Lifecycle.Operations.{
  Outcome, resolved, rejected, stop, resume, fire_timer, on_relay_close, set_disposed,
  handle_connection_failure,
}
use remote_pi.Lifecycle.Tasks.{
  Event, start_event, stop_event, timer_event, dispose_event, close_event, resume_event, take_at,
  resume_taken, step, run,
}
use remote_pi.Lifecycle.SingleFlight.{
  one_flight, task_flights, IsSingle, take_at-flights, step-IsSingle, run-IsSingle, new-IsSingle,
}

-- Nothing is connected, and nothing is under way that could connect.
pub record IsQuiet (s : Lifecycle) : Type 0 where
  pub idles : s.current_state ≡ idle
  pub unconnected : s.active_relay ≡ none
  pub untimed : s.reconnect_timer ≡ none
  pub unawaited : task_flights s.generation s.tasks ≡ 0

resume-IsQuiet :
    (t : Task) (o : Outcome) (s : Lifecycle)
    → one_flight s.generation t ≡ 0
    → IsQuiet s
    → IsQuiet (resume t o s)
unfolding resume handle_connection_failure is_reconnect_current
resume-IsQuiet (loading_identity e) (resolved i u) s stale h = ground arith
resume-IsQuiet (connecting_initial e url c) (resolved _ _) s stale h =
    ground (arith, close_candidate_once-SameFlight c s)
resume-IsQuiet (connecting_initial e url c) (rejected _) s stale h =
    ground (arith, clear_candidate-SameFlight c s)
resume-IsQuiet (connecting_reconnect e url c) (resolved _ _) s stale h =
    ground (arith, close_candidate_once-SameFlight c s)
resume-IsQuiet (connecting_reconnect e url c) (rejected _) s stale h =
    ground (arith, clear_candidate-SameFlight c s)
resume-IsQuiet (building_initial_options e url i) (resolved _ _) s stale h = ground arith
resume-IsQuiet (building_initial_options e url i) (rejected _) s stale h = ground arith
resume-IsQuiet (building_reconnect_options e url i) (resolved _ _) s stale h = ground arith
resume-IsQuiet (building_reconnect_options e url i) (rejected _) s stale h = ground arith
resume-IsQuiet (loading_identity e) (rejected b) s stale h = ground arith
resume-IsQuiet (clearing_initial_attempt a) o s stale h = ground arith

stop-IsQuiet : (s : Lifecycle) → IsSingle s → IsQuiet (stop s)
stop-IsQuiet s i = ground (arith, stop-SameFlight s, i (s.generation + 1))

abbrev is_start : Event → Bool
is_start start_event = true
is_start _ = false

abbrev pub NeverStarts : List Event → Type 0
NeverStarts [] = Unit
NeverStarts (e ∷ events) = (is_start e ≡ false) × NeverStarts events

step-IsQuiet :
    (e : Event) (s : Lifecycle) → is_start e ≡ false → IsSingle s → IsQuiet s → IsQuiet (step e s)
unfolding step resume_taken
step-IsQuiet start_event s no_start i h = cc
step-IsQuiet stop_event s no_start i h = stop-IsQuiet s i
step-IsQuiet timer_event s no_start i h = unfold fire_timer in ground arith
step-IsQuiet (dispose_event value) s no_start i h = unfold set_disposed in ground arith
step-IsQuiet (close_event closed) s no_start i h = unfold on_relay_close in ground arith
step-IsQuiet (resume_event place outcome) s no_start i h =
    elim (Option-cases (take_at place s.tasks)) [
      | inl absent ↦ rw absent h
      | inr ((t, rest), taken) ↦ rw taken (
          let count = take_at-flights s.generation place s.tasks t rest taken in
          resume-IsQuiet t outcome (record s { tasks = rest }) (ground (arith, count))
            (ground (arith, count)))
    ]

run-IsQuiet :
    (events : List Event) (s : Lifecycle)
    → NeverStarts events
    → IsSingle s
    → IsQuiet s
    → IsQuiet (run events s)
unfolding run
run-IsQuiet [] s n i h = h
run-IsQuiet (e ∷ events) s n i h =
    run-IsQuiet events (step e s) n.1 (step-IsSingle e s i) (step-IsQuiet e s n.0 i h)

run-append : (xs ys : List Event) (s : Lifecycle) → run (xs ++ ys) s ≡ run ys (run xs s)
unfolding run
run-append [] ys s = refl
run-append (x ∷ xs) ys s = run-append xs ys (step x s)

-- `stop` is final: whatever came before it, and however the promises that were waiting settle after
-- it, the lifecycle stays idle, with no relay, no timer and no operation of its generation, until
-- `start` is called.
pub stop_final :
    (before after : List Event)
    → NeverStarts after
    → IsQuiet (run (before ++ stop_event ∷ after) new)
stop_final before after n = rw (run-append before (stop_event ∷ after) new) (
    let i = run-IsSingle before new new-IsSingle in
    unfold run in
    run-IsQuiet after (step stop_event (run before new)) n (step-IsSingle stop_event _ i)
      (unfold step in stop-IsQuiet (run before new) i))
