-- ===== src/Service/Types.antt =====
-- v2_service.ts: frames, callbacks and the service.
use remote_pi.Base.{ℕ, String, Bool, Option, some, List, []}
use remote_pi.Base.JsMap.{JsMap}
use remote_pi.SessionState.Types.{Status, State}

-- `session_id`, `history_generation` and `channel_id` of a client frame that carries them.
pub record Head : Type 0 where
  pub id : String
  pub channel_id : String
  pub history_generation : String

-- `idempotencyPayload(frame)`
pub record Payload : Type 0 where
  pub text : String
  pub images : List String
  pub steer : Bool

pub record UserMessage : Type 0 where
  pub head : Head
  pub client_request_id : String
  pub payload : Payload

-- The four action frames have one handler, and so have the three that are not implemented.
pub data ClientFrame : Type 0 where
  session_hello : String → String → ClientFrame
  pair_request : String → ClientFrame
  session_sync : Head → Option String → Option ℕ → ClientFrame
  ping cancel list_models action unimplemented : Head → ClientFrame
  user_message : UserMessage → ClientFrame
  user_message_observed : Head → String → ClientFrame
  queued_message_clear : Head → Option String → ClientFrame

pub data ErrorCode : Type 0 where
  protocol_upgrade_required invalid_channel invalid_message unsupported_type too_large
        internal_error :
      ErrorCode

pub data ResetReason : Type 0 where
  generation_changed branch_changed session_replaced : ResetReason

pub record MessageStatus : Type 0 where
  pub target_channel_id : String
  pub in_reply_to : String
  pub history_generation : String
  pub client_request_id : String
  pub status : Status
  pub message_id : Option String
  pub group_id : Option String

-- `session_id`, the same in all frames of a service, is left out, and so are the texts of errors and
-- what a `models_list` lists. Of the message of `user_message_started` there are the id and the group.
pub data ServerFrame : Type 0 where
  session_ready : String → String → String → String → ServerFrame
  reset : String → String → ResetReason → ServerFrame
  protocol_error : String → ErrorCode → Option String → ServerFrame
  history : ℕ → ServerFrame
  pong cancelled models_list : String → String → ServerFrame
  user_message_status : MessageStatus → ServerFrame
  user_message_started : String → String → String → String → ServerFrame

pub data Origin : Type 0 where
  pwa extension unknown_origin : Origin

pub record Correlation : Type 0 where
  pub origin : Origin
  pub client_request_id : Option String
  pub request_id : Option String
  pub channel_id : Option String
  pub sender_ref : Option String

pub record TimelineStarted : Type 0 where
  pub event_id : String
  pub group_id : String
  pub correlation : Correlation

-- What `onUserMessage` does: it returns `true`, `false`, `"queued"` or `"rejected"`, or throws.
pub data Delivery : Type 0 where
  delivered declined queued_for_later rejected thrown : Delivery

-- What the callbacks answer, if they are given.
pub record Answers : Type 0 where
  pub on_user_message : Delivery
  -- `onCancel`: whether there was something to cancel; `none` if it throws.
  pub on_cancel : Option Bool
  -- `onAction` and `onListModels`: whether they are given, and whether they return.
  pub has_action : Bool
  pub action_returns : Bool
  pub has_models : Bool
  pub models_return : Bool
  -- The frames of `TimelineHistoryPager.sync`.
  pub history_frames : List ServerFrame

-- A call of a callback.
pub data Effect : Type 0 where
  deliver : UserMessage → Correlation → Effect
  cancel_active : Effect
  run_action : Effect
  clear_queued : Option String → Effect

pub record Service : Type 0 where
  pub state : State
  pub sender_ref : String
  pub request_channels : JsMap String String
  pub generation : String

-- The new service, the answer (`none` if the handler throws), and the calls of the callbacks.
abbrev pub Handled : Type 0
Handled = Service × Option (List ServerFrame) × List Effect

abbrev pub reply : Service → List ServerFrame → Handled
reply v frames = (v, some frames, [])
