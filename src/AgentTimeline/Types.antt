-- ===== src/AgentTimeline/Types.antt =====
-- runtime.ts: the data of TimelineRuntime, the entries of a Pi session and the events made of them.
use remote_pi.Base.{ℕ, String, Bool, Option, List}

pub data MessageRole : Type 0 where
  user assistant tool_result : MessageRole

-- A part of a message's content. A part of another type may have a string under `text`.
pub data ContentPart : Type 0 where
  text_part thinking_part : String → ContentPart
  image_part : String → String → ContentPart
  other_part : Option String → ContentPart

pub data Content : Type 0 where
  text_content : String → Content
  parts : List ContentPart → Content
  no_content : Content

-- A message that `asMessageRecord` takes. `object` is its reference. `timestamp` is a number that is
-- finite and not negative; `args` is what `jsonValue(args ?? {})` gives.
pub record MessageRecord : Type 0 where
  pub object : ℕ
  pub role : MessageRole
  pub content : Content
  pub timestamp : Option ℕ
  pub stop_reason : Option String
  pub error_message : Option String
  pub tool_call_id : Option String
  pub tool_name : Option String
  pub is_error : Bool
  pub args : String
  pub api : Option String
  pub provider : Option String
  pub model : Option String

pub data Origin : Type 0 where
  pwa extension unknown_origin : Origin

pub data Delivery : Type 0 where
  normal queued unknown_delivery : Delivery

pub record Correlation : Type 0 where
  pub client_request_id : Option String
  pub channel_id : Option String
  pub request_id : Option String
  pub origin : Origin
  pub delivery : Delivery
  pub sender_ref : Option String

pub data MarkerKind : Type 0 where
  user_marker : Origin → Delivery → Option String → MarkerKind
  assistant_marker tool_marker error_marker : MarkerKind
  -- Of the kind of a system event, by its name.
  system_marker : String → MarkerKind

pub record Marker : Type 0 where
  pub event_id : String
  pub group_id : Option String
  pub kind : MarkerKind

-- The data of a custom entry: a marker as it was appended, or something else, which may be an object
-- with a string under `event_id`.
pub data CustomData : Type 0 where
  marker_data : Marker → CustomData
  other_data : Option String → String → CustomData

pub data EntryKind : Type 0 where
  message_entry : Option MessageRecord → EntryKind
  custom_entry : String → CustomData → EntryKind
  compaction_entry branch_summary_entry : String → EntryKind
  other_entry : EntryKind

-- `timestamp` is `Date.parse` of the entry's, where that is finite and not negative.
pub record SessionEntry : Type 0 where
  pub id : String
  pub timestamp : Option ℕ
  pub kind : EntryKind

-- What the `SessionManager` answers; `object` is its reference. `now` is `Date.now()` during
-- one call; another call may find another.
pub record Session : Type 0 where
  pub object : ℕ
  pub session_id : String
  pub history_generation : String
  pub branch : List SessionEntry
  pub now : ℕ

pub data Block : Type 0 where
  text_block thinking_block : String → Block
  image_block : String → String → ℕ → Block

-- The fields of an event that depend on its kind.
pub data EventBody : Type 0 where
  user_event : List Block → Origin → Delivery → Option String → EventBody
  assistant_event : List Block → Bool → EventBody
  provider_error : String → EventBody
  tool_complete : String → String → String → Content → EventBody
  tool_error : String → String → String → String → EventBody
  compaction branch_summary : String → EventBody
  custom : String → CustomData → EventBody

pub record TimelineEvent : Type 0 where
  pub event_id : String
  pub session_id : String
  pub history_generation : String
  pub timestamp : ℕ
  pub group_id : Option String
  pub body : EventBody

pub record PendingMessage : Type 0 where
  pub message : ℕ
  pub role : MessageRole
  pub marker : Marker
  pub correlation : Correlation
  pub identity : Option String

abbrev pub timeline_marker : String
timeline_marker = "remote-pi:timeline-v2"

-- The schemas and what the code takes of the platform's functions on strings.
pub record Platform : Type 0 where
  -- `MarkerSchemaV2.safeParse`; `parse` throws where it is `none`.
  pub parse_marker : CustomData → Option Marker
  -- `TimelineEventSchema.safeParse`; `parse` throws where it is `none`.
  pub parse_event : TimelineEvent → Option TimelineEvent
  pub base64_length : String → ℕ
  pub trim : String → String
  pub number_to_string : ℕ → String
