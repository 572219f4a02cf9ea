-- ===== src/Lifecycle/Backoff.antt =====
-- relay_lifecycle.ts: how long the reconnects wait.
use remote_pi.Base.{ℕ, zero, suc, String, ◌≡◌, false, some, List, [], ◌∷◌, ◌++◌}
use remote_pi.Base.Equality.{nat_eq, string_eq}
use remote_pi.Lifecycle.Types.{started, Task, connecting_reconnect, Timer, Lifecycle}
use remote_pi.Lifecycle.Operations.{resolved, rejected, reconnect_backoff_ms}
use remote_pi.Lifecycle.Tasks.{Event, timer_event, close_event, resume_event}

-- A reconnect is scheduled, after this many failures in a row.
pub record IsWaiting (url : String) (failures : ℕ) (s : Lifecycle) : Type 0 where
  pub timer : Timer
  pub timed : s.reconnect_timer ≡ some timer
  pub current : timer.expected_generation ≡ s.generation
  pub to_url : timer.url ≡ url
  pub waits : timer.delay ≡ reconnect_backoff_ms failures
  pub counted : s.reconnect_attempt ≡ suc failures
  pub identity : ℕ
  pub known : s.identity ≡ some identity
  pub undisposed : s.is_disposed ≡ false
  pub on : s.current_state ≡ started
  pub relay_url : s.current_relay_url ≡ some url

-- The timer fires, the options are there, and the connection fails.
abbrev pub failure : String → List Event
failure url = timer_event ∷ resume_event 0 (resolved 0 url) ∷ resume_event 0 (rejected false) ∷ []

-- The timer fires, the connection is made, and its relay closes later.
abbrev pub success : String → ℕ → List Event
success url candidate =
    timer_event
    ∷ resume_event 0 (resolved 0 url)
    ∷ resume_event 0 (resolved 0 url)
    ∷ close_event candidate
    ∷ []

-- The reconnect is under way, with its client's task first.
record IsConnecting (url : String) (failures : ℕ) (candidate : ℕ) (s : Lifecycle) : Type 0 where
  others : List Task
  awaited : s.tasks ≡ connecting_reconnect s.generation url candidate ∷ others
  pending : s.pending_candidate ≡ some candidate
  counted : s.reconnect_attempt ≡ suc failures
  identity : ℕ
  known : s.identity ≡ some identity
  undisposed : s.is_disposed ≡ false
  on : s.current_state ≡ started
  relay_url : s.current_relay_url ≡ some url

-- This many attempts fail in a row.
abbrev pub attempts : String → ℕ → List Event
attempts url zero = []
attempts url (suc n) = failure url ++ attempts url n
