-- ===== src/Bridge.antt =====
-- pi-extension/src/actions/session_new_bridge.ts: the bridge from a remote action to the process-local
-- `newSession` command. The messages to the sender, and the calls of the options, are recorded in
-- `log`, the latest first; a token of `randomUUID` is an argument, and so is how the dispatch of the
-- command goes. `run` is cut at its `await`: `run_start` and `run_end`, with the replies of
-- `handleSessionNew` between them.
pub mod Reply
use remote_pi.Base.{
  ℕ, String, Bool, true, false, not, ◌||◌, ◌&&◌, ◌+◌, Option, none, some, List, [], ◌∷◌, length,
  ltb, if◌then◌else◌,
}
use remote_pi.Base.Equality.{◌==◌, nat_eq, string_eq}
use remote_pi.Base.JsMap
use remote_pi.Base.JsMap.{JsMap}

pub data Message : Type 0 where
  action_error : String → Message
  action_ok : Message

-- `reference` is the identity of the object, and of its timer; `sender` that of the reply sender.
pub record PendingSessionNew : Type 0 where
  pub reference : ℕ
  pub sender : ℕ
  pub frame_id : String
  pub timer_set : Bool
  pub running : Bool

pub data Effect : Type 0 where
  send : ℕ → String → Message → Effect
  dispatch_command : String → Effect
  command_context finished : Effect

pub record Bridge : Type 0 where
  pub pending : JsMap String PendingSessionNew
  pub running : Bool
  pub switch_permit : Bool
  pub next_reference : ℕ
  pub log : List Effect

abbrev pub initial : Bridge
initial = record {
  pending = [];
  running = false;
  switch_permit = false;
  next_reference = 0;
  log = [];
}

abbrev complete_found : String → ℕ → Message → Bridge → Option PendingSessionNew → Bridge
complete_found token reference message b none = b
complete_found token reference message b (some p) =
    if not (p.reference == reference) then b else record b {
      pending = JsMap.delete b.pending token;
      log = send p.sender p.frame_id message ∷ b.log;
    }

-- `complete`: only the first message for a pending request is sent.
unfoldable pub complete : String → ℕ → Message → Bridge → Bridge
complete token reference message b =
    complete_found token reference message b (JsMap.get b.pending token)

-- `fail`: the timer fires, the dispatch is rejected, or the bridge is cleared.
unfoldable pub fail : String → ℕ → String → Bridge → Bridge
unfolding complete
fail token reference error b = complete token reference (action_error error) b

-- How `sendUserMessage` goes: it may throw at once.
pub data Dispatch : Type 0 where
  dispatched throws : Dispatch

unfoldable pub after_dispatch : String → ℕ → Dispatch → Bridge → Bridge
unfolding fail
after_dispatch token reference dispatched b = b
after_dispatch token reference throws b =
    fail token reference "session replacement dispatch failed" b

unfoldable pub dispatch : Bool → String → ℕ → String → Dispatch → Bridge → Bridge
unfolding after_dispatch
dispatch has_pi token sender frame_id outcome b =
    if not has_pi
    then record b {
      log = send sender frame_id (action_error "session replacement is unavailable") ∷ b.log;
    }
    else if b.running || ltb 0 (length b.pending)
    then record b {
      log =
          send sender frame_id (action_error "session replacement is already in progress") ∷ b.log;
    }
    else after_dispatch token b.next_reference outcome (record b {
      pending = JsMap.set b.pending token (record {
        reference = b.next_reference;
        sender = sender;
        frame_id = frame_id;
        timer_set = true;
        running = false;
      });
      next_reference = b.next_reference + 1;
      log = dispatch_command token ∷ b.log;
    })

unfoldable pub run_found : String → Bridge → Option PendingSessionNew → Bridge
run_found token b none = b
run_found token b (some p) = if p.running || b.running then b else record b {
  pending = JsMap.set b.pending token (record p { timer_set = false; running = true });
  running = true;
  switch_permit = true;
  log = command_context ∷ b.log;
}

-- `run` up to `handleSessionNew`; the token is trimmed.
unfoldable pub run_start : String → Bridge → Bridge
unfolding run_found
run_start token b = run_found token b (JsMap.get b.pending token)

-- The `finally` of `run`.
unfoldable pub run_end : Bridge → Bridge
run_end b = record b { switch_permit = false; running = false; log = finished ∷ b.log }

pub data SwitchReason : Type 0 where
  new_session resume : SwitchReason

abbrev is_new : SwitchReason → Bool
is_new new_session = true
is_new resume = false

-- `true` is `{ cancel: true }`.
unfoldable pub before_switch : SwitchReason → Bridge → Bridge × Bool
before_switch reason b =
    if not b.running
    then (b, false)
    else if is_new reason && b.switch_permit
    then (record b { switch_permit = false }, false)
    else (b, true)

unfoldable pub before_fork : Bridge → Bool
before_fork b = b.running

unfoldable pub clear_all : String → JsMap String PendingSessionNew → Bridge → Bridge
unfolding fail
clear_all error [] b = b
clear_all error ((token, p) ∷ entries) b = clear_all error entries (fail token p.reference error b)

unfoldable pub clear : String → Bridge → Bridge
unfolding clear_all
clear error b = clear_all error b.pending b
