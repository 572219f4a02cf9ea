-- ===== src/TimelineStore.antt =====
-- pwa/src/lib/pwa/timeline-store.ts: the events that the web app keeps of a session, and which of them.
pub mod Database
pub mod Selected
pub mod Retained
pub mod Conflicts
use remote_pi.Base.{
  ℕ, String, Bool, true, false, not, ◌&&◌, ◌||◌, Option, none, some, List, [], ◌∷◌, map, any,
  filter, length, ltb, leb, drop, ◌-◌, sort_by, if◌then◌else◌, is_some,
}
use remote_pi.Base.Equality.{◌==◌, string_eq, nat_eq, option_eq}
use remote_pi.Base.JsMap.{JsMap, get, set, keys}
use remote_pi.Transfer.Types.{EventKind, EventStatus, TimelineEvent}
use remote_pi.Transfer.Chunks.{Checked, ok, fail, ◌>>=◌}

pub record TimelineScope : Type 0 where
  pub device_id : String
  pub endpoint_id : String
  pub session_id : String
  pub history_generation : String

abbrev pub max_recent_groups : ℕ
max_recent_groups = 5

pub record TimelineEventWithGroup : Type 0 where
  pub event : TimelineEvent
  pub group_id : String
  pub timestamp : ℕ

-- The platform: `localeCompare(…) <= 0`, and the parts of an id after `encodeURIComponent`, joined.
pub record Platform : Type 0 where
  pub locale_le : String → String → Bool
  pub join_encoded : List String → String

abbrev pub status_persists : EventKind → EventStatus → Bool
status_persists EventKind.user EventStatus.committed = true
status_persists EventKind.user _ = false
status_persists EventKind.assistant EventStatus.complete_status = true
status_persists EventKind.assistant EventStatus.interrupted = true
status_persists EventKind.assistant _ = false
status_persists EventKind.tool EventStatus.complete_status = true
status_persists EventKind.tool EventStatus.error_status = true
status_persists EventKind.tool EventStatus.interrupted = true
status_persists EventKind.tool _ = false
status_persists EventKind.provider_error s = true
status_persists EventKind.compaction s = true
status_persists EventKind.branch_summary s = true
status_persists EventKind.custom s = true

-- `isPersistableTimelineEvent`
unfoldable pub is_persistable : TimelineEvent → Bool
is_persistable e = is_some e.group_id && status_persists e.kind e.status

unfoldable pub event_group_id : TimelineEvent → Option String
event_group_id e = if is_persistable e then e.group_id else none

abbrev pub not_in_scope : TimelineScope → TimelineEvent → Bool
not_in_scope scope e =
    not (e.session_id == scope.session_id) || not (e.history_generation == scope.history_generation)

abbrev pub cons_grouped :
    TimelineEvent → Option String → List TimelineEventWithGroup → List TimelineEventWithGroup
cons_grouped e none rest = rest
cons_grouped e (some g) rest = record { event = e; group_id = g; timestamp = e.timestamp } ∷ rest

-- `assertEventInScope` throws for the first event of another session or generation.
unfoldable pub to_grouped_events :
    TimelineScope → List TimelineEvent → Checked (List TimelineEventWithGroup)
to_grouped_events scope [] = ok []
to_grouped_events scope (e ∷ events) =
    let rest = to_grouped_events scope events in
    if not_in_scope scope e
    then fail "Timeline event does not belong to the active session scope."
    else rest >>= λ grouped. ok (cons_grouped e (event_group_id e) grouped)

module _ (platform : Platform) where
  abbrev pub event_before : TimelineEventWithGroup → TimelineEventWithGroup → Bool
  event_before a b =
      ltb a.timestamp b.timestamp
      || (a.timestamp == b.timestamp && platform.locale_le a.event.event_id b.event.event_id)

  abbrev pub later : Option ℕ → ℕ → Bool
  later none timestamp = true
  later (some latest) timestamp = ltb latest timestamp

  -- The latest time of each group.
  abbrev pub latest_by_group : List TimelineEventWithGroup → JsMap String ℕ → JsMap String ℕ
  latest_by_group [] latest = latest
  latest_by_group (item ∷ items) latest = latest_by_group items (
      if later (get latest item.group_id) item.timestamp
      then set latest item.group_id item.timestamp
      else latest)

  abbrev pub group_before : String × ℕ → String × ℕ → Bool
  group_before a b = ltb a.1 b.1 || (a.1 == b.1 && platform.locale_le a.0 b.0)

  -- `slice(-MAX_RECENT_GROUPS)` of the groups, the latest last.
  unfoldable pub recent_group_ids : List TimelineEventWithGroup → List String
  recent_group_ids items =
      let groups = sort_by group_before (latest_by_group items []) in
      map (λ (g : String × ℕ). g.0) (drop (length groups - max_recent_groups) groups)

  abbrev pub member : String → List String → Bool
  member id ids = any (λ i. i == id) ids

  abbrev pub select_grouped : List TimelineEventWithGroup → List TimelineEvent
  select_grouped grouped =
      let groups = recent_group_ids grouped in
      map (λ (item : TimelineEventWithGroup). item.event)
        (sort_by event_before
          (filter (λ (item : TimelineEventWithGroup). member item.group_id groups) grouped))

  unfoldable pub select_recent_timeline_events :
      TimelineScope → List TimelineEvent → Checked (List TimelineEvent)
  select_recent_timeline_events scope events =
      to_grouped_events scope events >>= λ grouped. ok (select_grouped grouped)
