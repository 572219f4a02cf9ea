-- ===== src/Lifecycle/Kept.antt =====
-- relay_lifecycle.ts: what closing a candidate leaves as it was.
use remote_pi.Base.{ℕ, ◌≡◌, Option, none, some, arith, if◌then◌else◌}
use remote_pi.Lifecycle.Types.{Lifecycle, holds}
use remote_pi.Lifecycle.Operations.{
  close_candidate_once, clear_candidate, close_option, stopped, stop, unless_active,
}

-- The fields that decide about reconnecting.
pub record SameFlight (s t : Lifecycle) : Type 0 where
  pub tasks : t.tasks ≡ s.tasks
  pub timer : t.reconnect_timer ≡ s.reconnect_timer
  pub generation : t.generation ≡ s.generation
  pub disposed : t.is_disposed ≡ s.is_disposed
  pub state : t.current_state ≡ s.current_state
  pub identity : t.identity ≡ s.identity
  pub active : t.active_relay ≡ s.active_relay
  pub attempt : t.initial_attempt ≡ s.initial_attempt
  pub url : t.current_relay_url ≡ s.current_relay_url
  pub next : t.next_client ≡ s.next_client
  pub gone : t.gone ≡ s.gone

pub close_candidate_once-SameFlight :
    (candidate : ℕ) (s : Lifecycle) → SameFlight s (close_candidate_once candidate s)
unfolding close_candidate_once
close_candidate_once-SameFlight candidate s = ground arith

pub clear_candidate-SameFlight :
    (candidate : ℕ) (s : Lifecycle) → SameFlight s (clear_candidate candidate s)
unfolding clear_candidate close_candidate_once
clear_candidate-SameFlight candidate s = ground arith

close_option-SameFlight : (o : Option ℕ) (s : Lifecycle) → SameFlight s (close_option o s)
close_option-SameFlight none s = ground arith
close_option-SameFlight (some candidate) s = close_candidate_once-SameFlight candidate s

SameFlight-trans : {s t u : Lifecycle} → SameFlight s t → SameFlight t u → SameFlight s u
SameFlight-trans h k = ground arith

-- But for the candidates that it closes and what it calls, `stop` writes its fields alone.
pub stop-SameFlight : (s : Lifecycle) → SameFlight (stopped s) (stop s)
unfolding stop
stop-SameFlight s =
    let k = SameFlight-trans (close_option-SameFlight s.active_relay (stopped s)) (
      close_option-SameFlight (unless_active s.pending_candidate s.active_relay)
        (close_option s.active_relay (stopped s))) in
    record {
      tasks = k.tasks;
      timer = k.timer;
      generation = k.generation;
      disposed = k.disposed;
      state = k.state;
      identity = k.identity;
      active = k.active;
      attempt = k.attempt;
      url = k.url;
      next = k.next;
      gone = k.gone;
    }

pub pending-close_candidate_once :
    (candidate : ℕ) (s : Lifecycle)
    → (close_candidate_once candidate s).pending_candidate ≡ s.pending_candidate
unfolding close_candidate_once
pending-close_candidate_once candidate s = ground arith

pub pending-clear_candidate :
    (candidate : ℕ) (s : Lifecycle)
    → (clear_candidate candidate s).pending_candidate
      ≡ (if holds s.pending_candidate candidate then none else s.pending_candidate)
unfolding clear_candidate close_candidate_once
pending-clear_candidate candidate s = ground arith
