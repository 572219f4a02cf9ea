-- ===== src/Lifecycle/Operations.antt =====
-- relay_lifecycle.ts: the methods, cut at their `await`s, and the events that drive them.
use remote_pi.Base.{
  ℕ, zero, suc, ◌+◌, String, Bool, not, ◌||◌, Option, none, some, ◌∷◌, any, is_some, if◌then◌else◌,
}
use remote_pi.Base.Equality.{◌==◌, nat_eq, string_eq}
use remote_pi.Lifecycle.Types.{
  idle, started, Effect, state_change, disconnect, notify_info, notify_warning, identity_error,
  connect, close_client, Task, loading_identity, building_initial_options, connecting_initial,
  building_reconnect_options, connecting_reconnect, clearing_initial_attempt, Timer, Lifecycle,
  is_started, holds, is_operation_current, is_reconnect_current,
}

abbrev pub emit : Effect → Lifecycle → Lifecycle
emit e s = record s { log = e ∷ s.log }

abbrev pub await : Task → Lifecycle → Lifecycle
await t s = record s { tasks = t ∷ s.tasks }

-- `RECONNECT_BACKOFFS_MS[Math.min(attempt, length - 1)]`
unfoldable pub reconnect_backoff_ms : ℕ → ℕ
reconnect_backoff_ms zero = 1000
reconnect_backoff_ms (suc zero) = 2000
reconnect_backoff_ms (suc (suc zero)) = 5000
reconnect_backoff_ms (suc (suc (suc zero))) = 10000
reconnect_backoff_ms (suc (suc (suc (suc attempt)))) = 30000

unfoldable pub close_candidate_once : ℕ → Lifecycle → Lifecycle
close_candidate_once candidate s =
    if any (λ c. c == candidate) s.closed_candidates then s else record s {
      closed_candidates = candidate ∷ s.closed_candidates;
      log = close_client candidate ∷ s.log;
    }

-- `clearCandidate(candidate, true)`
unfoldable pub clear_candidate : ℕ → Lifecycle → Lifecycle
clear_candidate candidate s =
    if holds s.pending_candidate candidate
    then close_candidate_once candidate (record s { pending_candidate = none })
    else s

unfoldable pub schedule_reconnect : String → Lifecycle → Lifecycle
schedule_reconnect url s =
    if not (is_some s.identity) || (s.is_disposed || not (is_started s.current_state))
    then s
    else record s {
      generation = s.generation + 1;
      reconnect_attempt = s.reconnect_attempt + 1;
      reconnect_timer = some (record {
        expected_generation = s.generation + 1;
        url = url;
        delay = reconnect_backoff_ms s.reconnect_attempt;
      });
    }

unfoldable pub handle_connection_failure : ℕ → String → Lifecycle → Lifecycle
handle_connection_failure expected_generation url s =
    if is_reconnect_current expected_generation s
    then schedule_reconnect url (emit state_change (emit notify_warning s))
    else s

-- The last lines of `startInitial` and of `reconnect`: the candidate becomes the relay.
unfoldable pub adopt : ℕ → Lifecycle → Lifecycle
adopt candidate s = emit state_change (
    emit (connect candidate)
      (record s { pending_candidate = none; active_relay = some candidate; reconnect_attempt = 0 }))

-- `createClient`, and `connect` up to its `await`.
unfoldable pub create_client : (ℕ → Task) → Lifecycle → Lifecycle
create_client connecting s =
    await (connecting s.next_client)
      (record s { pending_candidate = some s.next_client; next_client = s.next_client + 1 })

-- `start`, with `startInitial` up to its first `await`.
unfoldable pub start : Lifecycle → Lifecycle
start s =
    if is_some s.initial_attempt
    then s
    else if is_started s.current_state
    then emit notify_warning s
    else await (loading_identity (s.generation + 1))
        (record s { generation = s.generation + 1; initial_attempt = some (s.generation + 1) })

abbrev pub close_option : Option ℕ → Lifecycle → Lifecycle
close_option none s = s
close_option (some candidate) s = close_candidate_once candidate s

-- `if (pending && pending !== active)`
abbrev pub unless_active : Option ℕ → Option ℕ → Option ℕ
unless_active none active = none
unless_active (some pending) active = if holds active pending then none else some pending

-- The fields that `stop` writes.
abbrev pub stopped : Lifecycle → Lifecycle
stopped s = record s {
  generation = s.generation + 1;
  reconnect_timer = none;
  reconnect_attempt = 0;
  active_relay = none;
  pending_candidate = none;
  current_relay_url = none;
  initial_attempt = none;
  current_state = idle;
}

unfoldable pub stop : Lifecycle → Lifecycle
stop s = emit state_change (
    emit disconnect (
      close_option (unless_active s.pending_candidate s.active_relay)
        (close_option s.active_relay (stopped s))))

-- How a promise settles: `resolved` gives the loaded identity and the resolved URL, where the task
-- waits for the identity; `rejected` gives what `handleIdentityError` answers.
pub data Outcome : Type 0 where
  resolved : ℕ → String → Outcome
  rejected : Bool → Outcome

-- The end of the operation settles the promise of the attempt.
abbrev pub finish : ℕ → Lifecycle → Lifecycle
finish attempt s = await (clearing_initial_attempt attempt) s

clear_initial_attempt : ℕ → Lifecycle → Lifecycle
clear_initial_attempt attempt s =
    if holds s.initial_attempt attempt then record s { initial_attempt = none } else s

-- What follows an `await`; the task has left the list.
unfoldable pub resume : Task → Outcome → Lifecycle → Lifecycle
unfolding clear_initial_attempt
resume (loading_identity expected) (resolved identity url) s =
    if not (is_operation_current expected s)
    then finish expected s
    else await (building_initial_options expected url identity) (
        emit notify_info (
          emit state_change (record s {
            identity = some identity;
            current_relay_url = some url;
            current_state = started;
          })))
resume (loading_identity expected) (rejected handled) s =
    if not (is_operation_current expected s)
    then finish expected s
    else finish expected (emit identity_error s)
resume (building_initial_options expected url identity) (resolved _ _) s =
    if is_reconnect_current expected s
    then create_client (connecting_initial expected url) s
    else finish expected s
resume (building_initial_options expected url identity) (rejected _) s =
    finish expected (handle_connection_failure expected url s)
resume (connecting_initial expected url candidate) (resolved _ _) s =
    if not (is_reconnect_current expected s) || not (holds s.pending_candidate candidate)
    then finish expected (close_candidate_once candidate s)
    else finish expected (adopt candidate s)
resume (connecting_initial expected url candidate) (rejected _) s =
    finish expected (handle_connection_failure expected url (clear_candidate candidate s))
resume (building_reconnect_options expected url identity) (resolved _ _) s =
    if not (is_reconnect_current expected s) || not (holds s.identity identity)
    then s
    else create_client (connecting_reconnect expected url) s
resume (building_reconnect_options expected url identity) (rejected _) s =
    if is_reconnect_current expected s then schedule_reconnect url (emit state_change s) else s
resume (connecting_reconnect expected url candidate) (resolved _ _) s =
    if not (is_reconnect_current expected s) || not (holds s.pending_candidate candidate)
    then close_candidate_once candidate s
    else adopt candidate s
resume (connecting_reconnect expected url candidate) (rejected _) s =
    let s' = clear_candidate candidate s in
    if is_reconnect_current expected s' then schedule_reconnect url (emit state_change s') else s'
resume (clearing_initial_attempt attempt) _ s = clear_initial_attempt attempt s

abbrev pub begin_reconnect : ℕ → String → Option ℕ → Lifecycle → Lifecycle
begin_reconnect expected url none s = s
begin_reconnect expected url (some identity) s =
    await (building_reconnect_options expected url identity) s

fire_found : Option Timer → Lifecycle → Lifecycle
fire_found none s = s
fire_found (some t) s₀ =
    let s : Lifecycle = record s₀ { reconnect_timer = none } in
    if is_reconnect_current t.expected_generation s
    then begin_reconnect t.expected_generation t.url s.identity s
    else s

-- The callback of `setTimeout`, with `reconnect` up to its first `await`.
unfoldable pub fire_timer : Lifecycle → Lifecycle
unfolding fire_found
fire_timer s = fire_found s.reconnect_timer s

abbrev pub reconnect_to : Option String → Lifecycle → Lifecycle
reconnect_to none s = s
reconnect_to (some url) s = if url == "" then s else schedule_reconnect url s

-- A relay emits `close`: it is gone, and `onRelayClose` runs.
unfoldable pub on_relay_close : ℕ → Lifecycle → Lifecycle
on_relay_close closed s₀ =
    let s : Lifecycle = record s₀ { gone = closed ∷ s₀.gone } in
    if not (holds s.active_relay closed) || not (is_started s.current_state)
    then s
    else reconnect_to s.current_relay_url
        (emit state_change (emit disconnect (record s { active_relay = none })))

unfoldable pub set_disposed : Bool → Lifecycle → Lifecycle
set_disposed value s = record s { is_disposed = value }
