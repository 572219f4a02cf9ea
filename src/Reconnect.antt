-- ===== src/Reconnect.antt =====
-- pwa/src/lib/pwa/reconnect-state.ts: the gate of reconnect requests, and
-- pwa/src/lib/pwa/server-frame-recovery.ts: the recovery path of a server frame. The `schedule`
-- callback of `request` is an output: the trigger that it is called with.
pub mod Grants
pub mod Recovery
use remote_pi.Base.{
  ℕ, ◌+◌, Bool, true, false, not, ◌||◌, Option, none, some, List, [], ◌∷◌, if◌then◌else◌,
}
use remote_pi.Base.Equality.{◌==◌, nat_eq}

pub data Trigger : Type 0 where
  closed error connect_rejected : Trigger

pub record State : Type 0 where
  pub terminal : Bool
  pub scheduled : Bool
  pub connection_token : ℕ

abbrev pub initial : State
initial = record { terminal = false; scheduled = false; connection_token = 0 }

unfoldable pub begin_connection : State → State × ℕ
begin_connection s =
    let s' : State = record s { connection_token = s.connection_token + 1; scheduled = false } in
    (s', s'.connection_token)

unfoldable pub replacement_bye : State → State
replacement_bye s = record {
  connection_token = s.connection_token + 1;
  terminal = false;
  scheduled = false;
}

unfoldable pub terminal_bye : State → State
terminal_bye s = record {
  connection_token = s.connection_token + 1;
  terminal = true;
  scheduled = true;
}

unfoldable pub user_recover : State → State
user_recover s = record {
  connection_token = s.connection_token + 1;
  terminal = false;
  scheduled = false;
}

unfoldable pub cancel : State → State
cancel s = record s { connection_token = s.connection_token + 1; scheduled = false }

-- The default of the `token` parameter.
abbrev pub token_or : Option ℕ → ℕ → ℕ
token_or none current = current
token_or (some token) current = token

-- The trigger that `schedule` is called with, if it is called, and the result.
unfoldable pub request : Trigger → Option ℕ → State → State × Option Trigger × Bool
request trigger token s =
    if not (token_or token s.connection_token == s.connection_token) || (s.terminal || s.scheduled)
    then (s, none, false)
    else (record s { scheduled = true }, some trigger, true)

-- The public methods as one type of calls.
pub data Call : Type 0 where
  begin_connection_call replacement_bye_call terminal_bye_call user_recover_call cancel_call : Call
  request_call : Trigger → Option ℕ → Call

-- The state after a call, and whether it scheduled a reconnect.
unfoldable pub run_call : Call → State → State × Option Trigger
run_call begin_connection_call s = ((begin_connection s).0, none)
run_call replacement_bye_call s = (replacement_bye s, none)
run_call terminal_bye_call s = (terminal_bye s, none)
run_call user_recover_call s = (user_recover s, none)
run_call cancel_call s = (cancel s, none)
run_call (request_call trigger token) s =
    let (s', scheduled, result) = request trigger token s in (s', scheduled)

unfoldable pub run : List Call → State → State
run [] s = s
run (c ∷ calls) s = run calls (run_call c s).0
