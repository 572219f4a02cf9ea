-- ===== src/Tests/LifecycleTests.antt =====
-- relay_lifecycle.ts: a start that connects, a relay that closes, and a stop.
use remote_pi.Base.{String, ◌≤◌, ◌<◌, ◌≡◌, ◌⊎◌, refl, true, List, [], ◌∷◌, ◌++◌, is_some}
use remote_pi.Lifecycle.Types.{is_started, new, is_operation_current, is_reconnect_current}
use remote_pi.Lifecycle.Operations.{
  resolved, rejected, start, resume, create_client, adopt, on_relay_close, schedule_reconnect,
}
use remote_pi.Lifecycle.Tasks.{
  Event, start_event, stop_event, timer_event, close_event, resume_event, take_at, resume_taken,
  step, run,
}
use remote_pi.Lifecycle.SingleFlight.{flights, run-one_flight}
use remote_pi.Lifecycle.Progress.{run_working}
use remote_pi.Lifecycle.Stopped.{IsQuiet, stop_final}

abbrev url : String
url = "wss://relay"

abbrev connects_and_closes : List Event
connects_and_closes =
    start_event
    ∷ resume_event 0 (resolved 7 url)
    ∷ resume_event 0 (resolved 0 url)
    ∷ resume_event 0 (resolved 0 url)
    ∷ close_event 0
    ∷ []

connects_and_closes-is_started : is_started (run connects_and_closes new).current_state ≡ true
unfolding run new step on_relay_close resume_taken take_at start resume is_operation_current
    is_reconnect_current create_client adopt schedule_reconnect
connects_and_closes-is_started = refl

run_working_example :
    let s = run connects_and_closes new in
    (is_some s.active_relay ≡ true) ⊎ (flights s.generation s ≡ 1)
run_working_example =
    run_working connects_and_closes (tt, (refl, (refl, (refl, (tt, tt)))))
      connects_and_closes-is_started

run-one_flight_example :
    let s = run connects_and_closes new in (flights 2 s ≤ 1) × (s.generation < 2 → flights 2 s ≡ 0)
run-one_flight_example = run-one_flight connects_and_closes 2

abbrev late_promises : List Event
late_promises = resume_event 0 (resolved 7 url) ∷ resume_event 0 (rejected true) ∷ timer_event ∷ []

stop_final_example : IsQuiet (run ((start_event ∷ []) ++ stop_event ∷ late_promises) new)
stop_final_example = stop_final (start_event ∷ []) late_promises (refl, (refl, (refl, tt)))
