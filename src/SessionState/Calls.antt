-- ===== src/SessionState/Calls.antt =====
-- session_state.ts: the public methods as one type of calls, and the state after a list of them.
use remote_pi.Base.{ℕ, String, Option, List, [], ◌∷◌}
use remote_pi.SessionState.Types.{
  Status, Request, State, set_generation, hello, touch, remove_channel,
}
use remote_pi.SessionState.Records.{
  remove_owner, begin, update, remember_unknown_delivery, get_record, forget, snapshot,
}

pub data Call (P : Type 0) : Type 0 where
  set_generation_call : String → Call P
  hello_call touch_call : ℕ → String → String → Call P
  remove_channel_call : String → String → Call P
  remove_owner_call : String → Call P
  begin_call : ℕ → ℕ → Request P → Call P
  update_call : ℕ → ℕ → String → Status → Option String → Option String → Call P
  remember_unknown_delivery_call : ℕ → ℕ → String → Call P
  get_record_call : ℕ → String → Call P
  forget_call : String → Call P
  snapshot_call : ℕ → Call P

module _ {P : Type 0} (fingerprint_payload : P → String) where
  -- The state that a call leaves, whether it returns or throws.
  unfoldable pub run_call : Call P → State → State
  run_call (set_generation_call generation) s = (set_generation generation s).0
  run_call (hello_call now sender_ref channel_id) s = (hello now sender_ref channel_id s).0
  run_call (touch_call now sender_ref channel_id) s = (touch now sender_ref channel_id s).0
  run_call (remove_channel_call sender_ref channel_id) s = remove_channel sender_ref channel_id s
  run_call (remove_owner_call sender_ref) s = remove_owner sender_ref s
  run_call (begin_call now later request) s = (begin fingerprint_payload now later request s).0
  run_call (update_call now later key status message_id group_id) s =
      (update now later key status message_id group_id s).0
  run_call (remember_unknown_delivery_call now later key) s =
      (remember_unknown_delivery now later key s).0
  run_call (get_record_call now key) s = (get_record now key s).0
  run_call (forget_call key) s = (forget key s).0
  run_call (snapshot_call now) s = (snapshot now s).0

  unfoldable pub run_calls : List (Call P) → State → State
  run_calls [] s = s
  run_calls (c ∷ calls) s = run_calls calls (run_call c s)
