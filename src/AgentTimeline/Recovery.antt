-- ===== src/AgentTimeline/Recovery.antt =====
-- runtime.ts: `recover`, which reads the events of a session from its entries. Before that it calls
-- `attach`, as the handlers do.
use Prim.Native.String.{◌++◌ as ◌⧺◌}
use remote_pi.Base.{
  String, Option, none, some, List, [], ◌∷◌, ◌++◌, map, any, flat_map, if◌then◌else◌,
}
use remote_pi.Base.Equality.{◌==◌, string_eq}
use remote_pi.AgentTimeline.Types.{
  MessageRole, user, assistant, tool_result, Marker, MarkerKind, user_marker, assistant_marker,
  tool_marker, unknown_origin, Delivery, EntryKind, message_entry, custom_entry, SessionEntry,
  Session, TimelineEvent, Platform, timeline_marker,
}
use remote_pi.AgentTimeline.Events.{
  role_for_marker, correlation_from_marker, to_timeline_event, to_system_event,
}
use remote_pi.AgentTimeline.Runtime.{Target, scan_target}

-- A target with the marker whose event it becomes.
pub record Marked : Type 0 where
  pub target : Target
  pub marker : Marker

abbrev pub marked_by : Option Marker → Option Target → List Marked
marked_by (some m) (some t) = record { target = t; marker = m } ∷ []
marked_by _ _ = []

abbrev pub target_of : Option Marker → List SessionEntry → Option Target
target_of none branch = none
target_of (some m) branch = scan_target branch (role_for_marker m)

module _ (platform : Platform) where
  abbrev pub marked_at : EntryKind → List SessionEntry → List Marked
  marked_at (custom_entry custom_type d) branch =
      if custom_type == timeline_marker
      then marked_by (platform.parse_marker d) (target_of (platform.parse_marker d) branch)
      else []
  marked_at _ branch = []

  -- The first loop: the message of each marker.
  unfoldable pub marked : List SessionEntry → List Marked
  marked [] = []
  marked (entry ∷ branch) = marked_at entry.kind branch ++ marked branch

  abbrev pub legacy_kind : MessageRole → MarkerKind
  legacy_kind user = user_marker unknown_origin Delivery.unknown_delivery none
  legacy_kind assistant = assistant_marker
  legacy_kind tool_result = tool_marker

  abbrev pub legacy_at : String → SessionEntry → EntryKind → List Marked
  legacy_at group_id entry (message_entry (some m)) =
      record {
        target = record { entry_id = entry.id; entry_ms = entry.timestamp; message = m };
        marker = record {
          event_id = "legacy:" ⧺ entry.id;
          group_id = some group_id;
          kind = legacy_kind m.role;
        };
      }
      ∷ []
  legacy_at group_id entry _ = []

  -- The second loop: the messages that no marker marks, all of one group.
  unfoldable pub legacy : String → List String → List SessionEntry → List Marked
  legacy group_id matched [] = []
  legacy group_id matched (entry ∷ branch) =
      let rest = legacy group_id matched branch in
      if any (λ id. id == entry.id) matched
      then rest
      else legacy_at group_id entry entry.kind ++ rest

  abbrev pub cons_event :
      Option TimelineEvent → Option (List TimelineEvent) → Option (List TimelineEvent)
  cons_event (some e) (some events) = some (e ∷ events)
  cons_event _ _ = none

  -- A message that the schema does not take is a throw.
  unfoldable pub events_of : Session → List Marked → Option (List TimelineEvent)
  events_of session [] = some []
  events_of session (m ∷ ms) =
      cons_event
        (to_timeline_event platform session m.target.entry_ms m.target.message m.marker
          (correlation_from_marker m.marker))
        (events_of session ms)

  abbrev pub to_list : Option TimelineEvent → List TimelineEvent
  to_list none = []
  to_list (some e) = e ∷ []

  abbrev pub append_systems :
      Option (List TimelineEvent) → List TimelineEvent → Option (List TimelineEvent)
  append_systems none systems = none
  append_systems (some events) systems = some (events ++ systems)

  unfoldable pub recover : Session → Option (List TimelineEvent)
  recover session =
      let found = marked session.branch in
      let matched = map (λ (m : Marked). m.target.entry_id) found in
      append_systems
        (events_of session
          (found ++ legacy ("legacy:" ⧺ session.session_id) matched session.branch))
        (flat_map (λ entry. to_list (to_system_event platform session entry)) session.branch)
