-- ===== src/Lifecycle/Rescheduling.antt =====
-- relay_lifecycle.ts: how the failure of an attempt keeps what a started lifecycle relies on.
use remote_pi.Base.{
  ℕ, ◌+◌, String, ◌≡◌, refl, inl, inr, Bool, true, false, Option, none, some, List, [], ◌∷◌, arith,
  if◌then◌else◌, Bool-cases,
}
use remote_pi.Base.Equality.{◌==◌, nat_eq, string_eq}
use remote_pi.Lifecycle.Types.{
  Task, loading_identity, Lifecycle, is_started, is_reconnect_current, state_change, notify_warning,
}
use remote_pi.Lifecycle.Kept.{}
use remote_pi.Lifecycle.Operations.{
  Outcome, resolved, rejected, schedule_reconnect, handle_connection_failure, emit, finish,
}
use remote_pi.Lifecycle.Tasks.{}
use remote_pi.Lifecycle.Candidates.{connecting}
use remote_pi.Lifecycle.SingleFlight.{Single}
use remote_pi.Lifecycle.Live.{all_fit, all_fit_other, Live}

pub schedule_reconnect-Live :
    (url : String) (n : ℕ) (s : Lifecycle)
    → Live n s
    → Single 0 (s.generation + 1) s
    → is_started s.current_state ≡ true
    → Live 0 (schedule_reconnect url s)
unfolding schedule_reconnect
schedule_reconnect-Live url n s h k on = ground (
  arith,
  all_fit_other (s.generation + 1) s.pending_candidate s.identity (is_started s.current_state)
      s.tasks,
)

-- A resolved URL is not empty.
abbrev pub HasUrl : Outcome → Type 0
HasUrl (resolved _ url) = (url == "") ≡ false
HasUrl (rejected _) = Unit

abbrev pub same : ℕ → ℕ → ℕ
same e g = if e == g then 1 else 0

pub handle_connection_failure-Live :
    (e : ℕ) (url : String) (s : Lifecycle)
    → Live (same e s.generation) s
    → Single 0 (s.generation + 1) s
    → Live 0 (handle_connection_failure e url s)
unfolding handle_connection_failure
handle_connection_failure-Live e url s h k = elim (Bool-cases (is_reconnect_current e s)) [
  | inl current ↦ rw current (
      schedule_reconnect-Live url (same e s.generation)
        (record s { log = state_change ∷ notify_warning ∷ s.log }) (ground arith) k
        (unfold is_reconnect_current in ground arith))
  | inr stale ↦ rw stale (unfold is_reconnect_current in ground arith)
]

-- The failure of a reconnect, which is not notified.
pub reschedule-Live :
    (e : ℕ) (url : String) (s : Lifecycle)
    → Live (same e s.generation) s
    → Single 0 (s.generation + 1) s
    → Live 0 (if is_reconnect_current e s then schedule_reconnect url (emit state_change s) else s)
reschedule-Live e url s h k = elim (Bool-cases (is_reconnect_current e s)) [
  | inl current ↦ rw current (
      schedule_reconnect-Live url (same e s.generation) (record s { log = state_change ∷ s.log })
        (ground arith) k (unfold is_reconnect_current in ground arith))
  | inr stale ↦ rw stale (unfold is_reconnect_current in ground arith)
]

pub Live-finish : (attempt : ℕ) (s : Lifecycle) → Live 0 s → Live 0 (finish attempt s)
Live-finish attempt s h = ground arith

-- Where no task connects `c`, no task relies on `c` as the pending candidate.
pub all_fit_cleared :
    (g c : ℕ) (identity : Option ℕ) (is_on : Bool) (ts : List Task)
    → connecting c ts ≡ 0
    → all_fit g (some c) identity is_on ts ≡ true
    → all_fit g none identity is_on ts ≡ true
all_fit_cleared g c identity is_on [] h f = refl
all_fit_cleared g c identity is_on (loading_identity e ∷ ts) h f =
    ground (arith, all_fit_cleared g c identity is_on ts)
all_fit_cleared g c identity is_on (t ∷ ts) h f =
    ground (arith, all_fit_cleared g c identity is_on ts)
