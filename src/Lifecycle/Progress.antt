-- ===== src/Lifecycle/Progress.antt =====
-- relay_lifecycle.ts: an undisposed extension that is started never gives up. It has a relay, or an
-- operation of the current generation waits or is scheduled.
use remote_pi.Base.{
  ℕ, ◌+◌, String, ◌≡◌, inl, inr, ◌⊎◌, true, false, not, ◌||◌, Option, none, some, List, [], ◌∷◌,
  arith, is_some, Option-cases, Bool-cases,
}
use remote_pi.Base.Equality.{◌==◌, nat_eq, string_eq}
use remote_pi.Lifecycle.Types.{
  Task, loading_identity, building_initial_options, connecting_initial, building_reconnect_options,
  connecting_reconnect, clearing_initial_attempt, Lifecycle, new, is_started, holds,
  is_reconnect_current, state_change, disconnect,
}
use remote_pi.Lifecycle.Kept.{
  close_candidate_once-SameFlight, clear_candidate-SameFlight, stop-SameFlight,
  pending-close_candidate_once, pending-clear_candidate,
}
use remote_pi.Lifecycle.Operations.{
  Outcome, resolved, rejected, start, stop, resume, fire_timer, on_relay_close, set_disposed,
  clear_candidate, adopt, create_client, handle_connection_failure, reconnect_to,
}
use remote_pi.Lifecycle.Tasks.{
  Event, start_event, stop_event, timer_event, dispose_event, close_event, resume_event, take_at,
  resume_taken, step, run,
}
use remote_pi.Lifecycle.Candidates.{
  connects, connecting, Distinct, IsDistinct, take_at-connecting, step-IsDistinct, new-IsDistinct,
}
use remote_pi.Lifecycle.SingleFlight.{
  Single-zero, one_flight, flights, Single, IsSingle, take_at-flights, step-IsSingle, new-IsSingle,
  run-one_flight,
}
use remote_pi.Lifecycle.Live.{fits, all_fit_other, take_at-fits, has_url, Live}
use remote_pi.Lifecycle.Rescheduling.{
  schedule_reconnect-Live, HasUrl, same, handle_connection_failure-Live, reschedule-Live,
  Live-finish, all_fit_cleared,
}

clear_candidate-Live :
    (n c : ℕ) (s : Lifecycle) → Live n s → connecting c s.tasks ≡ 0 → Live n (clear_candidate c s)
clear_candidate-Live n c s h none_connects = ground (
  arith,
  clear_candidate-SameFlight c s,
  pending-clear_candidate c s,
  all_fit_cleared s.generation c s.identity (is_started s.current_state) s.tasks,
)

-- The task has left the list of `s`.
resume-Live :
    (t : Task) (o : Outcome) (s : Lifecycle)
    → HasUrl o
    → Live (one_flight s.generation t) s
    → fits s.generation s.pending_candidate s.identity (is_started s.current_state) t ≡ true
    → Single (one_flight s.generation t) s.generation s
    → Single (one_flight (s.generation + 1) t) (s.generation + 1) s
    → ((c : ℕ) → Distinct (connects c t) c s)
    → Live 0 (resume t o s)
unfolding resume
resume-Live (loading_identity e) (resolved i u) s good h f k k' d =
    unfold is_reconnect_current in
    ground (arith, all_fit_other s.generation s.pending_candidate (some i) true s.tasks)
resume-Live (loading_identity e) (rejected b) s good h f k k' d =
    unfold is_reconnect_current in ground arith
resume-Live (building_initial_options e url i) (resolved _ _) s good h f k k' d =
    unfold create_client is_reconnect_current in
    ground (
      arith,
      all_fit_other s.generation (some s.next_client) s.identity (is_started s.current_state)
          s.tasks,
    )
resume-Live (building_initial_options e url i) (rejected b) s good h f k k' d =
    Live-finish e (handle_connection_failure e url s)
      (handle_connection_failure-Live e url s h (Single-zero _ _ s k'))
resume-Live (connecting_initial e url c) (resolved _ _) s good h f k k' d =
    unfold adopt is_reconnect_current in
    ground (
      arith,
      all_fit_other s.generation none s.identity (is_started s.current_state) s.tasks,
      close_candidate_once-SameFlight c s,
      pending-close_candidate_once c s,
    )
resume-Live (connecting_initial e url c) (rejected b) s good h f k k' d =
    Live-finish e (handle_connection_failure e url (clear_candidate c s)) (
      handle_connection_failure-Live e url (clear_candidate c s)
        (simp ((clear_candidate-SameFlight c s).generation)
          (clear_candidate-Live (same e s.generation) c s h (ground (arith, d c))))
        (ground (arith, clear_candidate-SameFlight c s)))
resume-Live (building_reconnect_options e url i) (resolved _ _) s good h f k k' d =
    unfold create_client is_reconnect_current in
    ground (
      arith,
      all_fit_other s.generation (some s.next_client) s.identity (is_started s.current_state)
          s.tasks,
    )
resume-Live (building_reconnect_options e url i) (rejected b) s good h f k k' d =
    reschedule-Live e url s h (Single-zero _ _ s k')
resume-Live (connecting_reconnect e url c) (resolved _ _) s good h f k k' d =
    unfold adopt is_reconnect_current in
    ground (
      arith,
      all_fit_other s.generation none s.identity (is_started s.current_state) s.tasks,
      close_candidate_once-SameFlight c s,
      pending-close_candidate_once c s,
    )
resume-Live (connecting_reconnect e url c) (rejected b) s good h f k k' d =
    reschedule-Live e url (clear_candidate c s)
      (simp ((clear_candidate-SameFlight c s).generation)
        (clear_candidate-Live (same e s.generation) c s h (ground (arith, d c))))
      (ground (arith, clear_candidate-SameFlight c s))
resume-Live (clearing_initial_attempt a) o s good h f k k' d = ground arith

abbrev IsLive : Lifecycle → Type 0
IsLive s = Live 0 s

reconnect_to-Live :
    (url : Option String) (s : Lifecycle)
    → Live 1 s
    → Single 0 (s.generation + 1) s
    → is_started s.current_state ≡ true
    → has_url url ≡ true
    → Live 0 (reconnect_to url s)
reconnect_to-Live none s h k on given = cc
reconnect_to-Live (some url) s h k on given =
    let is_given : (url == "") ≡ false = ground arith in
    rw is_given (schedule_reconnect-Live url 1 s h k on)

-- The events of a run in which the extension is not disposed and every resolved URL is given.
abbrev pub IsOrdinary : Event → Type 0
IsOrdinary start_event = Unit
IsOrdinary stop_event = Unit
IsOrdinary timer_event = Unit
IsOrdinary (dispose_event value) = value ≡ false
IsOrdinary (close_event closed) = Unit
IsOrdinary (resume_event place outcome) = HasUrl outcome

step-Live :
    (e : Event) (s : Lifecycle)
    → IsOrdinary e
    → IsSingle s
    → IsDistinct s
    → Live 0 s
    → Live 0 (step e s)
unfolding step resume_taken
step-Live start_event s o i d h =
    unfold start in
    ground (
      arith,
      all_fit_other (s.generation + 1) s.pending_candidate s.identity (is_started s.current_state)
          s.tasks,
      i (s.generation + 1),
    )
step-Live stop_event s o i d h = ground (
  arith,
  stop-SameFlight s,
  all_fit_other (s.generation + 1) (stop s).pending_candidate s.identity false s.tasks,
  i (s.generation + 1),
)
step-Live timer_event s o i d h =
    unfold fire_timer is_reconnect_current in ground (arith, i s.generation)
step-Live (dispose_event value) s o i d h = unfold set_disposed in ground arith
step-Live (close_event closed) s o i d h =
    elim (Bool-cases (not (holds s.active_relay closed) || not (is_started s.current_state))) [
      | inl ignored ↦ unfold on_relay_close in rw ignored (ground arith)
      | inr lost ↦
          unfold on_relay_close in
          rw lost (
            reconnect_to-Live s.current_relay_url
              (record s {
                gone = closed ∷ s.gone;
                active_relay = none;
                log = state_change ∷ disconnect ∷ s.log;
              })
              (ground arith) (i (s.generation + 1)) (ground arith) (ground arith))
    ]
step-Live (resume_event place outcome) s o i d h = elim (Option-cases (take_at place s.tasks)) [
  | inl absent ↦ rw absent h
  | inr ((t, rest), taken) ↦ rw taken (
      let (fit, fit_rest) =
        take_at-fits s.generation s.pending_candidate s.identity (is_started s.current_state) place
          s.tasks t rest taken h.fitting in
      let count = λ (g : ℕ). take_at-flights g place s.tasks t rest taken in
      resume-Live t outcome (record s { tasks = rest }) o (ground (arith, count s.generation)) fit
        (ground (arith, count s.generation, i s.generation))
        (ground (arith, count (s.generation + 1), i (s.generation + 1)))
        (λ c. ground (arith, take_at-connecting c place s.tasks t rest taken, d c)))
]

abbrev pub AreOrdinary : List Event → Type 0
AreOrdinary [] = Unit
AreOrdinary (e ∷ events) = IsOrdinary e × AreOrdinary events

run-Live :
    (events : List Event) (s : Lifecycle)
    → AreOrdinary events
    → IsSingle s
    → IsDistinct s
    → Live 0 s
    → Live 0 (run events s)
unfolding run
run-Live [] s o i d h = h
run-Live (e ∷ events) s o i d h =
    run-Live events (step e s) o.1 (step-IsSingle e s i) (step-IsDistinct e s d)
      (step-Live e s o.0 i d h)

new-Live : Live 0 new
unfolding new
new-Live = ground arith

-- After any events in which the extension is not disposed and every resolved URL is not empty: if
-- the lifecycle is started, it has a relay, or exactly one task or timer of its current generation is
-- there to go on.
pub run_working :
    (events : List Event)
    → AreOrdinary events
    → let s = run events new in
      is_started s.current_state ≡ true
      → (is_some s.active_relay ≡ true) ⊎ (flights s.generation s ≡ 1)
run_working events o on =
    let h = run-Live events new o new-IsSingle new-IsDistinct new-Live in
    ground (arith, h.working on, run-one_flight events (run events new).generation)
