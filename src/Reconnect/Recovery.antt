-- ===== src/Reconnect/Recovery.antt =====
-- server-frame-recovery.ts
use remote_pi.Base.{String, List, [], ◌∷◌, if◌then◌else◌}
use remote_pi.Base.Equality.{◌==◌, string_eq}

-- The frame types that recovery tells apart; `other` stands for every other type of frame.
pub data ServerFrame : Type 0 where
  reset other : ServerFrame
  bye : String → ServerFrame

pub data Action : Type 0 where
  rehello reconnect disconnect ignore : Action

-- The injected callbacks, as they are called.
pub data Effect : Type 0 where
  invalidate_scope rehello reconnect disconnect : Effect

unfoldable pub get_server_frame_recovery_action : ServerFrame → Action
get_server_frame_recovery_action reset = Action.rehello
get_server_frame_recovery_action other = Action.ignore
get_server_frame_recovery_action (bye reason) =
    if reason == "session_replaced" then Action.reconnect else Action.disconnect

perform : Action → List Effect
perform Action.rehello = Effect.invalidate_scope ∷ Effect.rehello ∷ []
perform Action.reconnect = Effect.invalidate_scope ∷ Effect.reconnect ∷ []
perform Action.disconnect = Effect.invalidate_scope ∷ Effect.disconnect ∷ []
perform Action.ignore = []

unfoldable pub recover_server_frame : ServerFrame → Action × List Effect
unfolding perform get_server_frame_recovery_action
recover_server_frame frame =
    let action = get_server_frame_recovery_action frame in (action, perform action)
