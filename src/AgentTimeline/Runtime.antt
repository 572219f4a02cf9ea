-- ===== src/AgentTimeline/Runtime.antt =====
-- runtime.ts: the state of TimelineRuntime and its handlers of the agent's events.
use Prim.Native.String.{◌++◌ as ◌⧺◌}
use remote_pi.Base.{
  ℕ, ◌+◌, String, Bool, true, false, not, ◌&&◌, ◌||◌, Option, none, some, List, [], ◌∷◌, ◌++◌, any,
  filter, if◌then◌else◌,
}
use remote_pi.Base.Equality.{◌==◌, string_eq, nat_eq, option_eq}
use remote_pi.Base.JsMap.{JsMap, get, set, delete}
use remote_pi.AgentTimeline.Types.{
  MessageRole, user, assistant, tool_result, MessageRecord, Correlation, Marker, MarkerKind,
  user_marker, assistant_marker, tool_marker, CustomData, marker_data, other_data, EntryKind,
  message_entry, custom_entry, SessionEntry, Session, Block, TimelineEvent, PendingMessage,
  Platform, timeline_marker,
}
use remote_pi.AgentTimeline.Events.{
  or_else, unknown_correlation, user_blocks, to_timeline_event, to_system_event,
}
use remote_pi.AgentTimeline.Deltas.{Units}

-- `pending` and `message_correlations` are the WeakMaps, by the reference of the message. `session` is
-- the manager's reference.
pub record Runtime : Type 0 where
  pub message_correlations : JsMap ℕ Correlation
  pub pending : JsMap ℕ PendingMessage
  pub pending_user : List PendingMessage
  pub pending_assistant : List PendingMessage
  pub pending_tool : List PendingMessage
  pub published : List TimelineEvent
  pub session : Option ℕ
  pub epoch : ℕ
  pub active_group_id : Option String
  pub active : Bool

abbrev pub new : Runtime
new = record {
  message_correlations = [];
  pending = [];
  pending_user = [];
  pending_assistant = [];
  pending_tool = [];
  published = [];
  session = none;
  epoch = 0;
  active_group_id = none;
  active = false;
}

pub record TimelineStarted : Type 0 where
  pub event_id : String
  pub group_id : String
  pub role : MessageRole
  pub correlation : Correlation
  pub blocks : List Block

pub data PartialKind : Type 0 where
  assistant_partial thinking_partial : PartialKind

-- A partial; without a delta its status is "running", with one "delta".
pub record TimelinePartial : Type 0 where
  pub session_id : String
  pub history_generation : String
  pub group_id : String
  pub partial_id : String
  pub kind : PartialKind
  pub delta : Option Units

-- The calls that go out: of the session manager and of the callbacks.
pub data Effect : Type 0 where
  append_custom_entry : Marker → Effect
  on_started : TimelineStarted → Effect
  on_published : TimelineEvent → Correlation → Effect
  on_partial : TimelinePartial → Correlation → Effect
  -- The schema of markers throws, out of the handler.
  schema_throws : Effect

abbrev pub reset_state : Runtime → Runtime
reset_state r = record r {
  epoch = 0;
  active_group_id = none;
  active = false;
  published = [];
  pending_user = [];
  pending_assistant = [];
  pending_tool = [];
}

unfoldable pub reset_session : Session → Runtime → Runtime
reset_session session r = reset_state (record r { session = some session.object })

unfoldable pub attach : Session → Runtime → Runtime
attach session r = if r.session == some session.object then r else reset_session session r

unfoldable pub on_agent_start : Runtime → Runtime
on_agent_start r = record r { epoch = r.epoch + 1; active = true; active_group_id = none }

unfoldable pub on_agent_end : Runtime → Runtime
on_agent_end r = record r {
  active = false;
  active_group_id = none;
  pending_user = [];
  pending_assistant = [];
  pending_tool = [];
}

abbrev pub pending_by_role : Runtime → MessageRole → List PendingMessage
pending_by_role r user = r.pending_user
pending_by_role r assistant = r.pending_assistant
pending_by_role r tool_result = r.pending_tool

abbrev pub set_pending : Runtime → MessageRole → List PendingMessage → Runtime
set_pending r user pendings = record r { pending_user = pendings }
set_pending r assistant pendings = record r { pending_assistant = pendings }
set_pending r tool_result pendings = record r { pending_tool = pendings }

abbrev pub role_name : MessageRole → String
role_name user = "user"
role_name assistant = "assistant"
role_name tool_result = "toolResult"

abbrev pub same_role : MessageRole → MessageRole → Bool
same_role a b = role_name a == role_name b

-- Two pending messages are one object: each has an event id of its own, a random UUID.
abbrev pub same_pending : PendingMessage → PendingMessage → Bool
same_pending a b = a.marker.event_id == b.marker.event_id

-- `correlationFor`, where `current` is the store of `AsyncLocalStorage`.
unfoldable pub correlation_for : Runtime → Option Correlation → MessageRecord → Correlation
correlation_for r (some current) m = current
correlation_for r none m = or_else (get r.message_correlations m.object) unknown_correlation

abbrev pub marker_kind : MessageRole → Correlation → MarkerKind
marker_kind user c = user_marker c.origin c.delivery c.sender_ref
marker_kind assistant c = assistant_marker
marker_kind tool_result c = tool_marker

-- `buildMarker` before the schema.
abbrev pub build_marker : MessageRole → String → String → Correlation → Marker
build_marker role event_id group_id c = record {
  event_id = event_id;
  group_id = some group_id;
  kind = marker_kind role c;
}

abbrev pub first_where : (PendingMessage → Bool) → List PendingMessage → Option PendingMessage
first_where p [] = none
first_where p (x ∷ xs) = let rest = first_where p xs in if p x then some x else rest

module _ (platform : Platform) where
  abbrev pub identity_at : MessageRecord → Option ℕ → Option String
  identity_at m none = none
  identity_at m (some at) = some (
      role_name m.role
      ⧺ (":"
          ⧺ (platform.number_to_string at
              ⧺ (":"
                  ⧺ (or_else m.api ""
                      ⧺ (":" ⧺ (or_else m.provider "" ⧺ (":" ⧺ or_else m.model ""))))))))

  unfoldable pub message_identity : MessageRecord → Option String
  message_identity m = identity_at m m.timestamp

  -- After `buildMarker`; `none` is the throw of the schema.
  abbrev pub start_marked :
      MessageRecord
      → Correlation
      → String
      → String
      → Runtime
      → Option Marker
      → Runtime × List Effect
  start_marked m c group_id event_id r none = (r, schema_throws ∷ [])
  start_marked m c group_id event_id r (some marker) =
      let p : PendingMessage = record {
        message = m.object;
        role = m.role;
        marker = marker;
        correlation = c;
        identity = message_identity m;
      } in
      let r' : Runtime = record r {
        message_correlations = set r.message_correlations m.object c;
        pending = set r.pending m.object p;
      } in
      (
        set_pending r' m.role (pending_by_role r' m.role ++ p ∷ []),
        append_custom_entry marker
            ∷ on_started (record {
              event_id = event_id;
              group_id = group_id;
              role = m.role;
              correlation = c;
              blocks = elim (m.role) [ user ↦ user_blocks platform m.content | _ ↦ [] ];
            })
            ∷ [],
      )

  -- The group and the event id are random where they are new.
  abbrev pub start_message :
      MessageRecord → Correlation → String → String → Runtime → Runtime × List Effect
  start_message m c group_id event_id r =
      start_marked m c group_id event_id (record r { active_group_id = some group_id })
        (platform.parse_marker (marker_data (build_marker m.role event_id group_id c)))

  -- `onMessageStart`; `none` is a message that `asMessageRecord` does not take.
  unfoldable pub on_message_start :
      Session
      → Option Correlation
      → String
      → String
      → Option MessageRecord
      → Runtime
      → Runtime × List Effect
  on_message_start session current new_group event_id none r = (attach session r, [])
  on_message_start session current new_group event_id (some m) r =
      let attached = attach session r in
      let started = if attached.active then attached else on_agent_start attached in
      start_message m (correlation_for started current m)
        (or_else started.active_group_id new_group) event_id started

  abbrev pub by_identity : List PendingMessage → Option String → Option PendingMessage
  by_identity pendings none = none
  by_identity pendings (some identity) = first_where (λ p. p.identity == some identity) pendings

  abbrev pub direct_or :
      Option PendingMessage
      → MessageRole
      → List PendingMessage
      → Option PendingMessage
      → Option PendingMessage
  direct_or none role pendings otherwise = otherwise
  direct_or (some p) role pendings otherwise =
      if same_role p.role role && any (same_pending p) pendings then some p else otherwise

  unfoldable pub find_pending : Runtime → MessageRecord → Option PendingMessage
  find_pending r m =
      let pendings = pending_by_role r m.role in
      direct_or (get r.pending m.object) m.role pendings (by_identity pendings (message_identity m))

  -- `onMessageEnd` until `setImmediate`, and the pending message that its callback goes on with.
  abbrev pub end_found : Option PendingMessage → ℕ → Runtime → Runtime × Option PendingMessage
  end_found none object r = (r, none)
  end_found (some p) object r =
      let r' : Runtime = record r { pending = delete (delete r.pending p.message) object } in
      (
        set_pending r' p.role (filter (λ q. not (same_pending q p)) (pending_by_role r' p.role)),
        some p,
      )

  unfoldable pub on_message_end :
      Session → Option MessageRecord → Runtime → Runtime × Option PendingMessage
  on_message_end session none r = (attach session r, none)
  on_message_end session (some m) r =
      let attached = attach session r in end_found (find_pending attached m) m.object attached

unfoldable pub publish : TimelineEvent → Correlation → Runtime → Runtime × List Effect
publish e c r =
    if any (λ (existing : TimelineEvent). existing.event_id == e.event_id) r.published
    then (r, [])
    else (record r { published = r.published ++ e ∷ [] }, on_published e c ∷ [])

abbrev pub data_event_id : CustomData → Option String
data_event_id (marker_data m) = some m.event_id
data_event_id (other_data event_id s) = event_id

abbrev pub marks : String → EntryKind → Bool
marks event_id (custom_entry custom_type d) =
    custom_type == timeline_marker && data_event_id d == some event_id
marks event_id _ = false

-- The entries after the first one that has the id or the marker.
unfoldable pub entries_after : String → List SessionEntry → Option (List SessionEntry)
entries_after event_id [] = none
entries_after event_id (entry ∷ branch) =
    let rest = entries_after event_id branch in
    if entry.id == event_id || marks event_id entry.kind then some branch else rest

-- A message that a marker marks, with its entry's id and time.
pub record Target : Type 0 where
  pub entry_id : String
  pub entry_ms : Option ℕ
  pub message : MessageRecord

abbrev pub of_role : SessionEntry → Option MessageRecord → MessageRole → Option Target
of_role entry none role = none
of_role entry (some m) role =
    if same_role m.role role
    then some (record { entry_id = entry.id; entry_ms = entry.timestamp; message = m })
    else none

abbrev pub scan_kind : SessionEntry → EntryKind → MessageRole → Option Target → Option Target
scan_kind entry (custom_entry custom_type d) role rest =
    if custom_type == timeline_marker then none else rest
scan_kind entry (message_entry m) role rest = of_role entry m role
scan_kind entry _ role rest = none

-- `scanTargetAfterMarker`
unfoldable pub scan_target : List SessionEntry → MessageRole → Option Target
scan_target [] role = none
scan_target (entry ∷ branch) role = scan_kind entry entry.kind role (scan_target branch role)

module _ (platform : Platform) where
  abbrev pub publish_found : Option TimelineEvent → Correlation → Runtime → Runtime × List Effect
  publish_found none c r = (r, [])
  publish_found (some e) c r = publish e c r

  -- The event of a target; `none` where there is no target, or where the schema throws.
  abbrev pub event_of : Session → Option Target → Marker → Correlation → Option TimelineEvent
  event_of session none marker c = none
  event_of session (some t) marker c =
      to_timeline_event platform session t.entry_ms t.message marker c

  abbrev pub target_after : Option (List SessionEntry) → MessageRole → Option Target
  target_after none role = none
  target_after (some entries) role = scan_target entries role

  -- The event that the callback of `setImmediate` publishes, with the branch that it finds.
  unfoldable pub ended_event : Session → PendingMessage → Option TimelineEvent
  ended_event session p =
      event_of session (target_after (entries_after p.marker.event_id session.branch) p.role)
        p.marker p.correlation

  unfoldable pub publish_ended : Session → PendingMessage → Runtime → Runtime × List Effect
  publish_ended session p r = publish_found (ended_event session p) p.correlation r

  unfoldable pub publish_session_entry : Session → SessionEntry → Runtime → Runtime × List Effect
  publish_session_entry session entry r =
      publish_found (to_system_event platform session entry) unknown_correlation (attach session r)
