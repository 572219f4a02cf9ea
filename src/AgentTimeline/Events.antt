-- ===== src/AgentTimeline/Events.antt =====
-- runtime.ts: the event of an entry: `toTimelineEvent`, `toSystemEvent` and their helpers.
use Prim.Native.String.{◌++◌ as ◌⧺◌}
use remote_pi.Base.{
  ℕ, String, Bool, false, Option, none, some, List, [], ◌∷◌, flat_map, if◌then◌else◌,
}
use remote_pi.Base.Equality.{◌==◌, string_eq}
use remote_pi.AgentTimeline.Types.{
  MessageRole, user, assistant, tool_result, ContentPart, text_part, thinking_part, image_part,
  other_part, Content, text_content, parts, no_content, MessageRecord, unknown_origin, Delivery,
  Correlation, MarkerKind, user_marker, assistant_marker, tool_marker, error_marker, system_marker,
  Marker, EntryKind, message_entry, custom_entry, compaction_entry, branch_summary_entry,
  other_entry, SessionEntry, Session, Block, text_block, thinking_block, image_block, EventBody,
  user_event, assistant_event, provider_error, tool_complete, tool_error, TimelineEvent, Platform,
  timeline_marker,
}

abbrev pub or_else {ℓ} : {A : Type ℓ} → Option A → A → A
or_else none a = a
or_else (some b) a = b

abbrev pub role_for_marker : Marker → MessageRole
role_for_marker m = elim (m.kind) [
  | user_marker origin delivery sender_ref ↦ user
  | assistant_marker ↦ assistant
  | tool_marker ↦ tool_result
  | error_marker ↦ tool_result
  | system_marker name ↦ tool_result
]

-- An empty sender reference is left out.
abbrev pub truthy : Option String → Option String
truthy none = none
truthy (some s) = if s == "" then none else some s

abbrev pub unknown_correlation : Correlation
unknown_correlation = record {
  client_request_id = none;
  channel_id = none;
  request_id = none;
  origin = unknown_origin;
  delivery = Delivery.unknown_delivery;
  sender_ref = none;
}

unfoldable pub correlation_from_kind : MarkerKind → Correlation
correlation_from_kind (user_marker origin delivery sender_ref) = record unknown_correlation {
  origin = origin;
  delivery = delivery;
  sender_ref = truthy sender_ref;
}
correlation_from_kind assistant_marker = unknown_correlation
correlation_from_kind tool_marker = unknown_correlation
correlation_from_kind error_marker = unknown_correlation
correlation_from_kind (system_marker name) = unknown_correlation

-- `correlationFromMarker`
abbrev pub correlation_from_marker : Marker → Correlation
correlation_from_marker m = correlation_from_kind m.kind

-- `timestamp`
abbrev pub timestamp_of : Session → Option ℕ → Option ℕ → ℕ
timestamp_of session (some entry_ms) message_ms = entry_ms
timestamp_of session none (some message_ms) = message_ms
timestamp_of session none none = session.now

module _ (platform : Platform) where
  abbrev user_block : ContentPart → List Block
  user_block (text_part s) = text_block s ∷ []
  user_block (image_part mime data_base64) =
      image_block mime data_base64 (platform.base64_length data_base64) ∷ []
  user_block (thinking_part s) = []
  user_block (other_part s) = []

  unfoldable pub user_blocks : Content → List Block
  user_blocks (text_content s) = text_block s ∷ []
  user_blocks (parts ps) = flat_map user_block ps
  user_blocks no_content = text_block "" ∷ []

  abbrev assistant_block : ContentPart → List Block
  assistant_block (text_part s) = text_block s ∷ []
  assistant_block (thinking_part s) = thinking_block s ∷ []
  assistant_block (image_part mime data_base64) = []
  assistant_block (other_part s) = []

  unfoldable pub assistant_blocks : Content → List Block
  assistant_blocks (text_content s) = text_block s ∷ []
  assistant_blocks (parts ps) = flat_map assistant_block ps
  assistant_blocks no_content = []

  abbrev text_of_part : ContentPart → List String
  text_of_part (text_part s) = s ∷ []
  text_of_part (other_part (some s)) = s ∷ []
  text_of_part (other_part none) = []
  text_of_part (thinking_part s) = []
  text_of_part (image_part mime data_base64) = []

  -- `join(" ")`
  abbrev join : List String → String
  join [] = ""
  join (s ∷ []) = s
  join (s ∷ t ∷ texts) = s ⧺ (" " ⧺ join (t ∷ texts))

  unfoldable pub text_from_content : Content → String
  text_from_content (text_content s) = s
  text_from_content (parts ps) = join (flat_map text_of_part ps)
  text_from_content no_content = ""

  unfoldable pub non_empty : String → String
  non_empty s = let trimmed = platform.trim s in if trimmed == "" then "tool failed" else trimmed

  -- The message of an error, or the text of the content, which is always a string.
  abbrev error_text : MessageRecord → String
  error_text m = non_empty (or_else m.error_message (text_from_content m.content))

  -- `stopReason === reason`
  abbrev stopped_by : String → Option String → Bool
  stopped_by reason none = false
  stopped_by reason (some s) = s == reason

  abbrev sender_of : MarkerKind → Option String
  sender_of (user_marker origin delivery sender_ref) = truthy sender_ref
  sender_of _ = none

  abbrev tool_id : MessageRecord → Marker → String
  tool_id m marker = or_else m.tool_call_id marker.event_id

  abbrev pub body_of : MessageRecord → Marker → Correlation → MessageRole → EventBody
  body_of m marker c user =
      user_event (user_blocks m.content) c.origin c.delivery (sender_of marker.kind)
  body_of m marker c assistant =
      if stopped_by "error" m.stop_reason
      then provider_error (error_text m)
      else assistant_event (assistant_blocks m.content) (stopped_by "aborted" m.stop_reason)
  body_of m marker c tool_result =
      let tool = or_else m.tool_name "unknown" in
      if m.is_error
      then tool_error (tool_id m marker) tool m.args (error_text m)
      else tool_complete (tool_id m marker) tool m.args m.content

  abbrev pub parse_body :
      Session → Option ℕ → MessageRecord → Marker → EventBody → Option TimelineEvent
  parse_body session entry_ms m marker body = platform.parse_event (record {
    event_id = marker.event_id;
    session_id = session.session_id;
    history_generation = session.history_generation;
    timestamp = timestamp_of session entry_ms m.timestamp;
    group_id = marker.group_id;
    body = body;
  })

  -- `toTimelineEvent` of the entry of a message; `none` is the throw of the schema.
  unfoldable pub to_timeline_event :
      Session → Option ℕ → MessageRecord → Marker → Correlation → Option TimelineEvent
  to_timeline_event session entry_ms m marker c =
      parse_body session entry_ms m marker (body_of m marker c m.role)

  abbrev system_body : EntryKind → Option EventBody
  system_body (compaction_entry payload) = some (EventBody.compaction payload)
  system_body (branch_summary_entry payload) = some (EventBody.branch_summary payload)
  system_body (custom_entry custom_type d) =
      if custom_type == timeline_marker then none else some (EventBody.custom custom_type d)
  system_body (message_entry m) = none
  system_body other_entry = none

  abbrev parse_system : Session → SessionEntry → Option EventBody → Option TimelineEvent
  parse_system session entry none = none
  parse_system session entry (some body) = platform.parse_event (record {
    event_id = entry.id;
    session_id = session.session_id;
    history_generation = session.history_generation;
    timestamp = timestamp_of session entry.timestamp none;
    group_id = none;
    body = body;
  })

  unfoldable pub to_system_event : Session → SessionEntry → Option TimelineEvent
  to_system_event session entry = parse_system session entry (system_body entry.kind)
