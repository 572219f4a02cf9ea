-- ===== src/Timeline/Types.antt =====
-- timeline-runtime.ts: scopes, events, pending messages, frames, and the runtime's state.
use remote_pi.Base.{ℕ, String, Bool, Option, List}
use remote_pi.Base.JsMap.{JsMap}
use remote_pi.Display.Types.{TimelinePartial, TimelinePartialView}

pub record TimelineScope : Type 0 where
  pub device_id : String
  pub endpoint_id : String
  pub runtime_instance_id : String
  pub session_id : String
  pub history_generation : String
  pub self_sender_ref : String
  pub channel_id : String

-- The kinds that the runtime tells apart; a user event has its `message_id`.
pub data EventKind : Type 0 where
  user : String → EventKind
  assistant provider_error tool other_kind : EventKind

-- `json` is `JSON.stringify(event)`.
pub record TimelineEvent : Type 0 where
  pub event_id : String
  pub session_id : String
  pub history_generation : String
  pub group_id : Option String
  pub kind : EventKind
  pub json : String

pub data PendingDelivery : Type 0 where
  pending_delivery received accepted committed unknown_delivery : PendingDelivery

-- `id` is `pending:` and the `client_request_id`.
pub record TimelinePending : Type 0 where
  pub client_request_id : String
  pub request_id : String
  pub text : String
  pub images : Option (List String)
  pub cancelable : Option Bool
  pub created_at : ℕ
  pub delivery : PendingDelivery
  pub message_id : Option String

-- An item of `queued_message_state`.
pub record QueuedItem : Type 0 where
  pub id : String
  pub text : String
  pub images : Option (List String)
  pub sender_ref : String
  pub created_at : ℕ

-- The frame `user_message_observed`.
pub record Observed : Type 0 where
  pub channel_id : String
  pub history_generation : String
  pub client_request_id : String
  pub message_id : String

-- The frame `user_message`.
pub record UserMessageFrame : Type 0 where
  pub id : String
  pub channel_id : String
  pub history_generation : String
  pub client_request_id : String
  pub text : String
  pub images : Option (List String)

-- `session_id` and `history_generation` of a frame.
pub record FrameScope : Type 0 where
  pub session_id : String
  pub history_generation : String

pub record QueuedState : Type 0 where
  pub scope : FrameScope
  pub snapshot_id : String
  pub chunk_index : ℕ
  pub items : List QueuedItem
  pub final : Bool

pub data ServerFrame : Type 0 where
  reset_frame other_frame : ServerFrame
  queued_message_state : QueuedState → ServerFrame
  protocol_error : Option String → ServerFrame
  user_message_status : FrameScope → String → PendingDelivery → Option String → ServerFrame
  user_message_started : FrameScope → String → String → ServerFrame
  timeline_partial : FrameScope → TimelinePartial → ServerFrame
  timeline_event : FrameScope → TimelineEvent → ServerFrame

pub record Runtime : Type 0 where
  pub scope : Option TimelineScope
  pub events : JsMap String TimelineEvent
  pub partials : JsMap String TimelinePartialView
  pub pending : JsMap String TimelinePending
  pub history_events : List TimelineEvent
  pub unknown : List TimelinePending
  pub queued_ids : List String
  pub queued_snapshot_id : Option String
  pub queued_snapshot_items : JsMap String QueuedItem
  pub observed_queue : List Observed

-- `TimelineRuntimeChange`, without `items` and `committed`, which is always empty.
pub record Change : Type 0 where
  pub observed : List Observed
  pub unknown : List TimelinePending

-- `parseTimelineEventV2` and `parseTimelinePartialV2`; a throw is `none`.
pub record Decoders : Type 0 where
  pub parse_event : TimelineEvent → Option TimelineEvent
  pub parse_partial : TimelinePartial → Option TimelinePartial
