-- ===== src/History/Window.antt =====
-- history.ts: the records that a cursor may show, and the window of the page, `recoverRecords` and
-- `selectWindow`.
use remote_pi.Base.{
  ℕ, ◌+◌, ◌-◌, min, max, String, Bool, true, false, not, ◌&&◌, ◌||◌, Option, none, some, List, [],
  ◌∷◌, ◌++◌, length, ltb, leb, filter, drop, sort_by, sum_by, flat_map, if◌then◌else◌,
}
use Prim.Native.String.{◌++◌ as ◌⧺◌}
use remote_pi.Base.Equality.{◌==◌, string_eq, nat_eq, option_eq}
use remote_pi.Base.JsMap.{JsMap, get, set, values}
use remote_pi.Transfer.Types.{EventKind, TimelineEvent}
use remote_pi.History.{
  message_entry, other_entry, custom_entry, BranchEntry, Host, CursorState, EventRecord,
  GroupRecord, Protocol, Attempt, done, thrown, ◌>>=◌, max_groups_per_page, max_window_decode_bytes,
  timeline_marker,
}

-- `left.position - right.position || left.order - right.order` is not positive.
abbrev pub record_before : EventRecord → EventRecord → Bool
record_before left right =
    ltb left.position right.position
    || (left.position == right.position && leb left.order right.order)

abbrev pub sort_records : List EventRecord → List EventRecord
sort_records records = sort_by record_before records

-- The positions of one entry: under its id, a message's legacy id, and the event id of a marker.
unfoldable pub entry_positions : ℕ → BranchEntry → JsMap String ℕ → JsMap String ℕ
entry_positions position entry positions =
    let own = set positions entry.id position in
    elim (entry.kind) [
      | message_entry ↦ set own ("legacy:" ⧺ entry.id) position
      | other_entry ↦ own
      | custom_entry custom_type event_id ↦ elim event_id [
        | none ↦ own
        | some id ↦
            if custom_type == timeline_marker && not (id == "") then set own id position else own
      ]
    ]

unfoldable pub positions_from : ℕ → List BranchEntry → JsMap String ℕ → JsMap String ℕ
positions_from position [] positions = positions
positions_from position (entry ∷ branch) positions =
    positions_from (position + 1) branch (entry_positions position entry positions)

module _ (protocol : Protocol) (cursor : CursorState) (positions : JsMap String ℕ) where
  -- An event that has no position, or one that is not before the cursor's, is left out.
  abbrev pub keep_record : TimelineEvent → ℕ → Option ℕ → List EventRecord → List EventRecord
  keep_record event order none rest = rest
  keep_record event order (some position) rest =
      if leb cursor.position position
      then rest
      else record {
        event = event;
        position = position;
        order = order;
        bytes = protocol.event_bytes event;
      }
        ∷ rest

  abbrev pub or_invalid :
      ℕ → Option TimelineEvent → Attempt (List EventRecord) → Attempt (List EventRecord)
  or_invalid order none rest = thrown "recovery returned an invalid timeline event"
  or_invalid order (some event) rest =
      rest >>= λ records. done (keep_record event order (get positions event.event_id) records)

  unfoldable pub records_from : ℕ → List TimelineEvent → Attempt (List EventRecord)
  records_from order [] = done []
  records_from order (raw_event ∷ recovered) =
      or_invalid order (protocol.parse_event raw_event) (records_from (order + 1) recovered)

abbrev pub sorted : Attempt (List EventRecord) → Attempt (List EventRecord)
sorted (done records) = done (sort_records records)
sorted (thrown message) = thrown message

abbrev pub records_of :
    Protocol
    → CursorState
    → JsMap String ℕ
    → Option (List TimelineEvent)
    → Attempt (List EventRecord)
records_of protocol cursor positions none = thrown ""
records_of protocol cursor positions (some recovered) =
    sorted (records_from protocol cursor positions 0 recovered)

-- `recoverRecords`
unfoldable pub recover_records : Protocol → Host → CursorState → Attempt (List EventRecord)
recover_records protocol host cursor =
    if length cursor.branch_entry_ids == 0 && cursor.snapshot_head == cursor.session_id
    then done []
    else records_of protocol cursor
        (positions_from 0 (host.session.branch_at cursor.snapshot_head) []) host.recovered

unfoldable pub normalize_limit : Option ℕ → ℕ
normalize_limit none = max_groups_per_page
normalize_limit (some limit) = min max_groups_per_page (max 1 limit)

abbrev pub is_system_kind : EventKind → Bool
is_system_kind EventKind.compaction = true
is_system_kind EventKind.branch_summary = true
is_system_kind EventKind.custom = true
is_system_kind _ = false

unfoldable pub is_system_event : TimelineEvent → Bool
is_system_event event = is_system_kind event.kind

abbrev pub Groups : Type 0
Groups = JsMap (Option String) GroupRecord

abbrev pub extend_group : Option GroupRecord → EventRecord → GroupRecord
extend_group none r = record {
  group_id = r.event.group_id;
  first_position = r.position;
  records = r ∷ [];
  bytes = r.bytes;
}
extend_group (some existing) r = record existing {
  records = existing.records ++ r ∷ [];
  bytes = existing.bytes + r.bytes;
}

unfoldable pub group_records : List EventRecord → Groups → Groups
unfolding is_system_event
group_records [] groups = groups
group_records (r ∷ records) groups =
    if is_system_event r.event
    then group_records records groups
    else group_records records
        (set groups r.event.group_id (extend_group (get groups r.event.group_id) r))

abbrev pub systems_of : List EventRecord → List EventRecord
unfolding is_system_event
systems_of records = filter (λ (r : EventRecord). is_system_event r.event) records

abbrev pub group_before : GroupRecord → GroupRecord → Bool
group_before left right = leb left.first_position right.first_position

-- `slice(-n)`, for a positive `n`.
abbrev pub last : ℕ → List GroupRecord → List GroupRecord
unfolding drop
last n groups = drop (length groups - n) groups

unfoldable pub selected_groups : List EventRecord → ℕ → Option ℕ → List GroupRecord
unfolding group_records normalize_limit last
selected_groups records position limit =
    let groups = values (group_records records []) in
    last (normalize_limit limit)
      (sort_by group_before (filter (λ (g : GroupRecord). ltb g.first_position position) groups))

pub record Window : Type 0 where
  pub records : List EventRecord
  pub next_position : ℕ

abbrev pub bytes_of : List EventRecord → ℕ
bytes_of records = sum_by (λ (r : EventRecord). r.bytes) records

abbrev pub between : ℕ → ℕ → EventRecord → Bool
between first position r = leb first r.position && ltb r.position position

module _ (protocol : Protocol) (systems : List EventRecord) (position : ℕ) where
  abbrev pub window_of : GroupRecord → List GroupRecord → List EventRecord
  window_of group rest = sort_records (
      flat_map (λ (g : GroupRecord). g.records) (group ∷ rest)
      ++ filter (between group.first_position position) systems)

  -- The groups fit, or those after the oldest are tried.
  abbrev pub window_or : GroupRecord → List GroupRecord → Attempt Window → Attempt Window
  window_or group rest otherwise =
      let records = window_of group rest in
      if leb (bytes_of records) max_window_decode_bytes
      then done (record { records = records; next_position = group.first_position })
      else otherwise

  -- The loop drops the oldest group until the others fit.
  unfoldable pub fit_groups : GroupRecord → List GroupRecord → Attempt Window
  fit_groups group [] = window_or group [] (thrown (protocol.group_too_large group))
  fit_groups group (next ∷ rest) = window_or group (next ∷ rest) (fit_groups next rest)

  abbrev pub least_position : EventRecord → List EventRecord → ℕ
  least_position r [] = r.position
  least_position r (s ∷ records) = min r.position (least_position s records)

  abbrev pub fit_systems : List EventRecord → Attempt Window
  fit_systems [] = done (record { records = []; next_position = 0 })
  fit_systems (r ∷ records) =
      if ltb max_window_decode_bytes (bytes_of (r ∷ records))
      then thrown "system history exceeds 33554432 bytes"
      else done (record {
        records = sort_records (r ∷ records);
        next_position = least_position r records;
      })

  unfoldable pub fit : List GroupRecord → Attempt Window
  unfolding fit_groups
  fit [] = fit_systems (filter (λ (r : EventRecord). ltb r.position position) systems)
  fit (group ∷ groups) = fit_groups group groups

-- `selectWindow`
unfoldable pub select_window : Protocol → List EventRecord → ℕ → Option ℕ → Attempt Window
unfolding selected_groups fit
select_window protocol records position limit =
    fit protocol (systems_of records) position (selected_groups records position limit)
