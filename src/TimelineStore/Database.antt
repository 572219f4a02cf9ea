-- ===== src/TimelineStore/Database.antt =====
-- timeline-store.ts: the records of the table of events, and the transactions on it. A transaction that
-- throws leaves the table as it was.
use remote_pi.Base.{
  ℕ, String, Bool, false, not, ◌&&◌, Option, none, some, List, [], ◌∷◌, ◌++◌, map, filter,
  if◌then◌else◌,
}
use remote_pi.Base.Equality.{◌==◌, string_eq, nat_eq, option_eq}
use remote_pi.Base.JsMap.{JsMap, get, set, values}
use remote_pi.Transfer.Types.{EventKind, EventStatus, TimelineEvent}
use remote_pi.Transfer.Chunks.{Checked, ok, fail, ◌>>=◌}
use remote_pi.TimelineStore.{
  TimelineScope, TimelineEventWithGroup, Platform, event_group_id, to_grouped_events,
  select_recent_timeline_events,
}

pub record StoreRecord : Type 0 where
  pub id : String
  pub scope : TimelineScope
  pub event_id : String
  pub group_id : String
  pub timestamp : ℕ
  pub event : TimelineEvent

-- The table, by its primary key.
abbrev pub Table : Type 0
Table = JsMap String StoreRecord

abbrev pub same_scope : TimelineScope → TimelineScope → Bool
same_scope a b =
    a.device_id == b.device_id
    && a.endpoint_id == b.endpoint_id
    && a.session_id == b.session_id
    && a.history_generation == b.history_generation

abbrev pub kind_name : EventKind → String
kind_name EventKind.user = "user"
kind_name EventKind.assistant = "assistant"
kind_name EventKind.tool = "tool"
kind_name EventKind.compaction = "compaction"
kind_name EventKind.branch_summary = "branch_summary"
kind_name EventKind.custom = "custom"
kind_name EventKind.provider_error = "provider_error"

abbrev pub status_name : EventStatus → String
status_name EventStatus.committed = "committed"
status_name EventStatus.complete_status = "complete"
status_name EventStatus.error_status = "error"
status_name EventStatus.interrupted = "interrupted"
status_name EventStatus.no_status = ""

-- `sameJsonValue` of two events: every field is the same.
unfoldable pub same_event : TimelineEvent → TimelineEvent → Bool
same_event a b =
    a.event_id == b.event_id
    && a.session_id == b.session_id
    && a.history_generation == b.history_generation
    && kind_name a.kind == kind_name b.kind
    && a.group_id == b.group_id
    && a.timestamp == b.timestamp
    && status_name a.status == status_name b.status
    && a.body == b.body

-- `new Map(records.map((record) => [record.id, record]))`, onto a map that is there.
unfoldable pub put_all : List StoreRecord → Table → Table
put_all [] table = table
put_all (r ∷ records) table = put_all records (set table r.id r)

abbrev pub conflicts_with : Option StoreRecord → StoreRecord → Bool
conflicts_with none r = false
conflicts_with (some previous) r = not (same_event previous.event r.event)

abbrev pub add_new : Option StoreRecord → StoreRecord → Table → Table
add_new none r by_id = set by_id r.id r
add_new (some previous) r by_id = by_id

unfoldable pub find_in : Table → List StoreRecord → Option StoreRecord
find_in by_id [] = none
find_in by_id (r ∷ incoming) =
    let rest = find_in (add_new (get by_id r.id) r by_id) incoming in
    if conflicts_with (get by_id r.id) r then some r else rest

unfoldable pub find_timeline_conflict : List StoreRecord → List StoreRecord → Option StoreRecord
find_timeline_conflict existing incoming = find_in (put_all existing []) incoming

abbrev pub records_for_scope : TimelineScope → Table → List StoreRecord
records_for_scope scope table =
    filter (λ (r : StoreRecord). same_scope r.scope scope) (values table)

-- `clearScopeInTransaction`
unfoldable pub clear_scope : TimelineScope → Table → Table
clear_scope scope table =
    filter (λ (e : String × StoreRecord). not (same_scope e.1.scope scope)) table

-- How a transaction ends: it stored, it cleared the scope for a conflict, or it threw.
pub data Outcome : Type 0 where
  stored : Outcome
  conflict : String → Outcome
  failed : String → Outcome

module _ (platform : Platform) (scope : TimelineScope) where
  abbrev pub record_of : TimelineEvent → Option String → Checked StoreRecord
  record_of e none = fail "Only grouped committed timeline events can be stored."
  record_of e (some g) = ok (record {
    id = platform.join_encoded (
        scope.device_id ∷ scope.endpoint_id ∷ scope.session_id ∷ scope.history_generation
        ∷ e.event_id ∷ []);
    scope = scope;
    event_id = e.event_id;
    group_id = g;
    timestamp = e.timestamp;
    event = e;
  })

  -- `toRecord`, of each event.
  unfoldable pub to_records : List TimelineEvent → Checked (List StoreRecord)
  to_records [] = ok []
  to_records (e ∷ events) =
      let rest = to_records events in
      record_of e (event_group_id e) >>= λ r. rest >>= λ records. ok (r ∷ records)

  abbrev pub events_of : List StoreRecord → List TimelineEvent
  events_of records = map (λ (r : StoreRecord). r.event) records

  -- `toGroupedEvents`, and a record of each.
  unfoldable pub incoming_records : List TimelineEvent → Checked (List StoreRecord)
  incoming_records events = to_grouped_events scope events >>= λ grouped.
      to_records (map (λ (item : TimelineEventWithGroup). item.event) grouped)

  unfoldable pub retained_records : Table → Checked (List StoreRecord)
  retained_records by_id =
      select_recent_timeline_events platform scope (events_of (values by_id)) >>= λ retained.
      to_records retained

  -- The scope is cleared and what is retained is put.
  abbrev pub store_retained : Table → Checked (List StoreRecord) → Table × Outcome
  store_retained table (fail reason) = (table, failed reason)
  store_retained table (ok records) = (put_all records (clear_scope scope table), stored)

  abbrev pub unless_conflict : Table → Option StoreRecord → Table × Outcome → Table × Outcome
  unless_conflict table (some r) otherwise = (clear_scope scope table, conflict r.event_id)
  unless_conflict table none otherwise = otherwise

  abbrev pub replace_with : Table → Checked (List StoreRecord) → Table × Outcome
  replace_with table (fail reason) = (table, failed reason)
  replace_with table (ok incoming) =
      unless_conflict table (find_timeline_conflict (records_for_scope scope table) incoming)
        (store_retained table (retained_records (put_all incoming [])))

  unfoldable pub replace_recent_window :
      List TimelineEvent → List TimelineEvent → Table → Table × Outcome
  replace_recent_window events realtime_journal table =
      replace_with table (incoming_records (events ++ realtime_journal))

  abbrev pub commit_with : Table → Checked (List StoreRecord) → Table × Outcome
  commit_with table (fail reason) = (table, failed reason)
  commit_with table (ok []) = (table, stored)
  commit_with table (ok (r ∷ incoming)) =
      let existing = records_for_scope scope table in
      unless_conflict table (find_timeline_conflict existing (r ∷ incoming))
        (store_retained table (retained_records (put_all (r ∷ incoming) (put_all existing []))))

  unfoldable pub commit_realtime : List TimelineEvent → Table → Table × Outcome
  commit_realtime events table = commit_with table (incoming_records events)

  unfoldable pub load_recent : Table → Checked (List TimelineEvent)
  load_recent table =
      select_recent_timeline_events platform scope (events_of (records_for_scope scope table))
