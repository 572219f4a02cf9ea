-- ===== src/Lifecycle/SingleFlight.antt =====
-- relay_lifecycle.ts: there is one connection operation at a time. Every task of an operation, and
-- the timer of a reconnect, carries the generation that it expects.
use remote_pi.Base.{
  ℕ, zero, suc, ◌+◌, ◌≤◌, ◌<◌, String, ◌≡◌, inl, inr, Option, none, some, List, [], ◌∷◌, arith,
  if◌then◌else◌, Option-cases, Bool-cases,
}
use remote_pi.Base.Equality.{◌==◌, nat_eq, string_eq}
use remote_pi.Lifecycle.Types.{
  Task, loading_identity, building_initial_options, connecting_initial, building_reconnect_options,
  connecting_reconnect, clearing_initial_attempt, Timer, Lifecycle, new, is_reconnect_current,
  state_change, disconnect,
}
use remote_pi.Lifecycle.Kept.{
  close_candidate_once-SameFlight, clear_candidate-SameFlight, stop-SameFlight,
}
use remote_pi.Lifecycle.Operations.{
  Outcome, resolved, rejected, start, resume, fire_timer, on_relay_close, set_disposed,
  schedule_reconnect, clear_candidate, adopt, create_client, handle_connection_failure, finish,
  reconnect_to,
}
use remote_pi.Lifecycle.Tasks.{
  Event, start_event, stop_event, timer_event, dispose_event, close_event, resume_event, take_at,
  resume_taken, step, run,
}

abbrev pub one_flight : ℕ → Task → ℕ
one_flight g (loading_identity expected) = if expected == g then 1 else 0
one_flight g (building_initial_options expected _ _) = if expected == g then 1 else 0
one_flight g (connecting_initial expected _ _) = if expected == g then 1 else 0
one_flight g (building_reconnect_options expected _ _) = if expected == g then 1 else 0
one_flight g (connecting_reconnect expected _ _) = if expected == g then 1 else 0
one_flight g (clearing_initial_attempt _) = 0

abbrev pub task_flights : ℕ → List Task → ℕ
task_flights g [] = 0
task_flights g (t ∷ ts) = one_flight g t + task_flights g ts

abbrev pub timer_flights : ℕ → Option Timer → ℕ
timer_flights g none = 0
timer_flights g (some t) = if t.expected_generation == g then 1 else 0

-- How many tasks and timers of connection operations expect the generation `g`.
abbrev pub flights : ℕ → Lifecycle → ℕ
flights g s = task_flights g s.tasks + timer_flights g s.reconnect_timer

-- At most one for each generation, and none for a generation to come.
abbrev pub Single : ℕ → ℕ → Lifecycle → Type 0
Single extra g s = (extra + flights g s ≤ 1) × (s.generation < g → extra + flights g s ≡ 0)

pub take_at-flights :
    (g n : ℕ) (ts : List Task) (t : Task) (rest : List Task)
    → take_at n ts ≡ some (t, rest)
    → task_flights g ts ≡ one_flight g t + task_flights g rest
unfolding take_at
take_at-flights g n [] t rest h = absurd (ground arith)
take_at-flights g zero (u ∷ ts) t rest h = ground arith
take_at-flights g (suc n) (u ∷ ts) t rest h = elim (Option-cases (take_at n ts)) [
  | inl e ↦ cc (rw (e) at h)
  | inr (p, e) ↦ ground (arith, e, take_at-flights g n ts p.0 p.1)
]

schedule_reconnect-Single :
    (url : String) (g : ℕ) (s : Lifecycle)
    → Single 0 g s
    → Single 0 (s.generation + 1) s
    → Single 0 g (schedule_reconnect url s)
unfolding schedule_reconnect
schedule_reconnect-Single url g s h k = ground arith

handle_connection_failure-Single :
    (expected : ℕ) (url : String) (g : ℕ) (s : Lifecycle)
    → Single 0 g s
    → Single 0 (s.generation + 1) s
    → Single 0 g (handle_connection_failure expected url s)
unfolding handle_connection_failure
handle_connection_failure-Single expected url g s h k =
    elim (Bool-cases (is_reconnect_current expected s)) [
      | inl current ↦ rw current (schedule_reconnect-Single url g _ h k)
      | inr stale ↦ rw stale h
    ]

pub Single-zero : (n g : ℕ) (s : Lifecycle) → Single n g s → Single 0 g s
Single-zero n g s h = (omega arith, λ later. omega (arith, h.1 later))

finish-Single : (attempt g : ℕ) (s : Lifecycle) → Single 0 g s → Single 0 g (finish attempt s)
finish-Single attempt g s h = (omega arith, λ later. omega (arith, h.1 later))

-- The task has left the list of `s`.
resume-Single :
    (t : Task) (o : Outcome) (g : ℕ) (s : Lifecycle)
    → Single (one_flight g t) g s
    → Single (one_flight (s.generation + 1) t) (s.generation + 1) s
    → Single 0 g (resume t o s)
unfolding resume
resume-Single (loading_identity e) (resolved i u) g s h k = ground arith
resume-Single (loading_identity e) (rejected b) g s h k = ground arith
resume-Single (building_initial_options e url i) (resolved _ _) g s h k =
    unfold create_client in ground arith
resume-Single (building_initial_options e url i) (rejected b) g s h k =
    finish-Single e g (handle_connection_failure e url s)
      (handle_connection_failure-Single e url g s (Single-zero _ g s h) (Single-zero _ _ s k))
resume-Single (connecting_initial e url c) (resolved _ _) g s h k =
    unfold adopt in ground (arith, close_candidate_once-SameFlight c s)
resume-Single (connecting_initial e url c) (rejected b) g s h k =
    finish-Single e g (handle_connection_failure e url (clear_candidate c s)) (
      handle_connection_failure-Single e url g (clear_candidate c s)
        (ground (arith, clear_candidate-SameFlight c s))
        (ground (arith, clear_candidate-SameFlight c s)))
resume-Single (building_reconnect_options e url i) (resolved _ _) g s h k =
    unfold create_client in ground arith
resume-Single (building_reconnect_options e url i) (rejected b) g s h k =
    elim (Bool-cases (is_reconnect_current e s)) [
      | inl current ↦
          rw current (schedule_reconnect-Single url g _ (Single-zero _ g s h) (Single-zero _ _ s k))
      | inr stale ↦ rw stale (Single-zero _ g s h)
    ]
resume-Single (connecting_reconnect e url c) (resolved _ _) g s h k =
    unfold adopt in ground (arith, close_candidate_once-SameFlight c s)
resume-Single (connecting_reconnect e url c) (rejected b) g s h k =
    let s' = clear_candidate c s in
    let same = clear_candidate-SameFlight c s in
    elim (Bool-cases (is_reconnect_current e s')) [
      | inl current ↦
          rw current
            (schedule_reconnect-Single url g _ (ground (arith, same)) (ground (arith, same)))
      | inr stale ↦ rw stale (ground (arith, same))
    ]
resume-Single (clearing_initial_attempt a) o g s h k = ground arith

reconnect_to-Single :
    (url : Option String) (g : ℕ) (s : Lifecycle)
    → Single 0 g s
    → Single 0 (s.generation + 1) s
    → Single 0 g (reconnect_to url s)
reconnect_to-Single none g s h k = h
reconnect_to-Single (some url) g s h k = elim (Bool-cases (url == "")) [
  | inl empty ↦ rw empty h
  | inr given ↦ rw given (schedule_reconnect-Single url g s h k)
]

abbrev pub IsSingle : Lifecycle → Type 0
IsSingle s = (g : ℕ) → Single 0 g s

pub step-IsSingle : (e : Event) (s : Lifecycle) → IsSingle s → IsSingle (step e s)
unfolding step resume_taken start fire_timer on_relay_close set_disposed
step-IsSingle start_event s h g = ground (arith, h g, h (s.generation + 1))
step-IsSingle stop_event s h g = ground (arith, stop-SameFlight s, h g, h (s.generation + 1))
step-IsSingle timer_event s h g = ground (arith, h g)
step-IsSingle (dispose_event value) s h g = h g
step-IsSingle (close_event closed) s h g = ground (
  arith,
  reconnect_to-Single s.current_relay_url g (record s {
    gone = closed ∷ s.gone;
    active_relay = none;
    log = state_change ∷ disconnect ∷ s.log;
  }),
  h g,
  h (s.generation + 1),
)
step-IsSingle (resume_event place outcome) s h g = elim (Option-cases (take_at place s.tasks)) [
  | inl absent ↦ rw absent (h g)
  | inr ((t, rest), taken) ↦ rw taken (
      resume-Single t outcome g (record s { tasks = rest })
        (ground (arith, take_at-flights g place s.tasks t rest taken, h g))
        (ground (
          arith,
          take_at-flights (s.generation + 1) place s.tasks t rest taken,
          h (s.generation + 1),
        )))
]

pub run-IsSingle : (events : List Event) (s : Lifecycle) → IsSingle s → IsSingle (run events s)
unfolding run
run-IsSingle [] s h = h
run-IsSingle (e ∷ events) s h = run-IsSingle events (step e s) (step-IsSingle e s h)

pub new-IsSingle : IsSingle new
unfolding new
new-IsSingle g = (omega arith, λ later. omega arith)

-- Whatever events follow the construction, in whatever order promises settle, timers fire and relays
-- close: for each generation at most one operation waits or is scheduled, and for a generation that
-- is still to come none.
pub run-one_flight :
    (events : List Event) (g : ℕ)
    → let s = run events new in (flights g s ≤ 1) × (s.generation < g → flights g s ≡ 0)
run-one_flight events g =
    let h = run-IsSingle events new new-IsSingle g in
    (omega (arith, h.0), λ later. omega (arith, h.1 later))
