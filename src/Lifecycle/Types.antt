-- ===== src/Lifecycle/Types.antt =====
-- relay_lifecycle.ts: the state, the tasks that wait, and the tests on the state. Clients, identities
-- and promises are compared by reference: a client is named by the number of clients made before it,
-- the promise of an initial attempt by the generation that its operation expects.
use remote_pi.Base.{ℕ, String, Bool, true, false, not, ◌&&◌, Option, none, some, List, []}
use remote_pi.Base.Equality.{◌==◌, nat_eq}

pub data RemoteState : Type 0 where
  idle started : RemoteState

pub data RelayConnectivity : Type 0 where
  connected reconnecting disconnected : RelayConnectivity

-- A call of an injected dependency, or of a client's `close`.
pub data Effect : Type 0 where
  state_change disconnect notify_info notify_warning identity_error : Effect
  connect close_client : ℕ → Effect

-- Where an `await` will go on, with the variables that are live there: the expected generation first.
pub data Task : Type 0 where
  loading_identity : ℕ → Task
  building_initial_options : ℕ → String → ℕ → Task
  connecting_initial : ℕ → String → ℕ → Task
  building_reconnect_options : ℕ → String → ℕ → Task
  connecting_reconnect : ℕ → String → ℕ → Task
  clearing_initial_attempt : ℕ → Task

pub record Timer : Type 0 where
  pub expected_generation : ℕ
  pub url : String
  pub delay : ℕ

pub record Lifecycle : Type 0 where
  pub active_relay : Option ℕ
  pub pending_candidate : Option ℕ
  pub current_relay_url : Option String
  pub identity : Option ℕ
  pub initial_attempt : Option ℕ
  pub reconnect_timer : Option Timer
  pub reconnect_attempt : ℕ
  pub generation : ℕ
  pub is_disposed : Bool
  pub current_state : RemoteState
  pub closed_candidates : List ℕ
  -- What stands outside the object: the tasks that wait, the clients made, the relays that closed by
  -- themselves, and the calls of the dependencies, the latest first.
  pub tasks : List Task
  pub next_client : ℕ
  pub gone : List ℕ
  pub log : List Effect

unfoldable pub new : Lifecycle
new = record {
  active_relay = none;
  pending_candidate = none;
  current_relay_url = none;
  identity = none;
  initial_attempt = none;
  reconnect_timer = none;
  reconnect_attempt = 0;
  generation = 0;
  is_disposed = false;
  current_state = idle;
  closed_candidates = [];
  tasks = [];
  next_client = 0;
  gone = [];
  log = [];
}

abbrev pub is_started : RemoteState → Bool
is_started idle = false
is_started started = true

-- `x === candidate`, where `x` may be null.
abbrev pub holds : Option ℕ → ℕ → Bool
holds none candidate = false
holds (some x) candidate = x == candidate

unfoldable pub is_operation_current : ℕ → Lifecycle → Bool
is_operation_current expected s = not s.is_disposed && s.generation == expected

unfoldable pub is_reconnect_current : ℕ → Lifecycle → Bool
unfolding is_operation_current
is_reconnect_current expected s = is_started s.current_state && is_operation_current expected s

unfoldable pub is_current : ℕ → Lifecycle → Bool
is_current candidate s =
    not s.is_disposed && (is_started s.current_state && holds s.active_relay candidate)

relay_status : Bool → RelayConnectivity
relay_status true = connected
relay_status false = reconnecting

abbrev open_relay : (ℕ → Bool) → Option ℕ → Bool
open_relay is_open none = false
open_relay is_open (some relay) = is_open relay

-- The getter `status`; `is_open` is the client's `isOpen`.
unfoldable pub status : (ℕ → Bool) → Lifecycle → RelayConnectivity
unfolding relay_status
status is_open s =
    let connectivity = relay_status (open_relay is_open s.active_relay) in
    elim s.current_state [ idle ↦ disconnected | started ↦ connectivity ]
