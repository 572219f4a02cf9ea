-- ===== src/History/Selection.antt =====
-- history.ts: the window of a page is within the limit and before the cursor.
use remote_pi.Base.{
  ℕ, ◌+◌, ◌-◌, ◌<◌, ◌≤◌, String, ◌≡◌, inl, inr, Bool, true, Option, none, some, List, [], ◌∷◌,
  length, ltb, leb, filter, sort_by, arith, All, All-filter_by, All-sort_by, All-drop, All-weaken,
  All-passed, sum_by-sort_by, Bool-cases, ◌&&◌,
}
use remote_pi.Base.Equality.{◌==◌, string_eq, nat_eq, option_eq}
use remote_pi.Base.JsMap.{JsMap, get, values}
use remote_pi.Transfer.Types.{TimelineEvent}
use remote_pi.History.{
  Host, CursorState, EventRecord, GroupRecord, Protocol, Attempt, done, thrown,
  max_window_decode_bytes,
}
use remote_pi.History.Window.{
  record_before, keep_record, or_invalid, records_from, sorted, records_of, positions_from,
  recover_records, selected_groups, group_before, group_records, normalize_limit, systems_of,
  Window, bytes_of, window_of, window_or, fit_groups, least_position, fit_systems, fit,
  select_window,
}
use remote_pi.History.Packing.{Gives}
use remote_pi.History.Frames.{Gives-bind}

-- The records before a position.
abbrev pub Before : ℕ → List EventRecord → Type 0
Before position records = All (λ (r : EventRecord). r.position < position) records

module _ (protocol : Protocol) (cursor : CursorState) (positions : JsMap String ℕ) where
  keep_record-Before :
      (e : TimelineEvent) (order : ℕ) (o : Option ℕ) (rest : List EventRecord)
      → Before cursor.position rest
      → Before cursor.position (keep_record protocol cursor positions e order o rest)
  keep_record-Before e order none rest h = h
  keep_record-Before e order (some position) rest h =
      elim (Bool-cases (leb cursor.position position)) [
        | inl late ↦ rw late h
        | inr early ↦ rw early (ground (arith, early), h)
      ]

  or_invalid-Before :
      (order : ℕ) (o : Option TimelineEvent) (rest : Attempt (List EventRecord))
      → Gives (Before cursor.position) rest
      → Gives (Before cursor.position) (or_invalid protocol cursor positions order o rest)
  or_invalid-Before order none rest h = tt
  or_invalid-Before order (some e) rest h =
      Gives-bind (Before cursor.position) (Before cursor.position) rest _ h
        (λ records. keep_record-Before e order (get positions e.event_id) records)

  records_from-Before :
      (order : ℕ) (recovered : List TimelineEvent)
      → Gives (Before cursor.position) (records_from protocol cursor positions order recovered)
  unfolding records_from
  records_from-Before order [] = tt
  records_from-Before order (e ∷ recovered) =
      or_invalid-Before order (protocol.parse_event e)
        (records_from protocol cursor positions (order + 1) recovered)
        (records_from-Before (order + 1) recovered)

  sorted-Before :
      (records : Attempt (List EventRecord))
      → Gives (Before cursor.position) records
      → Gives (Before cursor.position) (sorted records)
  sorted-Before (done records) h = All-sort_by record_before _ records h
  sorted-Before (thrown reason) h = tt

  records_of-Before :
      (recovered : Option (List TimelineEvent))
      → Gives (Before cursor.position) (records_of protocol cursor positions recovered)
  records_of-Before none = tt
  records_of-Before (some recovered) = sorted-Before _ (records_from-Before 0 recovered)

-- Only records before the cursor are recovered.
pub recover_records-Before :
    (protocol : Protocol) (host : Host) (cursor : CursorState)
    → Gives (Before cursor.position) (recover_records protocol host cursor)
unfolding recover_records
recover_records-Before protocol host cursor =
    elim (Bool-cases
      (length cursor.branch_entry_ids == 0 && cursor.snapshot_head == cursor.session_id)) [
        | inl nothing ↦ rw nothing tt
        | inr something ↦ rw something (
            records_of-Before protocol cursor
              (positions_from 0 (host.session.branch_at cursor.snapshot_head) []) host.recovered)
      ]

-- A window within the limit, whose start is 0 or before the cursor.
abbrev pub IsPage : ℕ → Window → Type 0
IsPage position w =
    (bytes_of w.records ≤ max_window_decode_bytes)
    × (0 < w.next_position → w.next_position < position)

module _ (protocol : Protocol) (systems : List EventRecord) (position : ℕ) where
  window_or-IsPage :
      (group : GroupRecord) (rest : List GroupRecord) (otherwise : Attempt Window)
      → group.first_position < position
      → Gives (IsPage position) otherwise
      → Gives (IsPage position) (window_or protocol systems position group rest otherwise)
  window_or-IsPage group rest otherwise first h =
      let records = window_of protocol systems position group rest in
      elim (Bool-cases (leb (bytes_of records) max_window_decode_bytes)) [
        | inl fits ↦ rw fits (ground (arith, fits), λ some_position. first)
        | inr too_large ↦ rw too_large h
      ]

  fit_groups-IsPage :
      (group : GroupRecord) (rest : List GroupRecord)
      → All (λ (g : GroupRecord). g.first_position < position) (group ∷ rest)
      → Gives (IsPage position) (fit_groups protocol systems position group rest)
  unfolding fit_groups
  fit_groups-IsPage group [] h = window_or-IsPage group [] _ h.0 tt
  fit_groups-IsPage group (next ∷ rest) h =
      window_or-IsPage group (next ∷ rest) (fit_groups protocol systems position next rest) h.0
        (fit_groups-IsPage next rest h.1)

  least_position-lt :
      (r : EventRecord) (records : List EventRecord)
      → Before position (r ∷ records)
      → least_position protocol systems position r records < position
  least_position-lt r [] h = h.0
  least_position-lt r (s ∷ records) h = ground (arith, h.0, least_position-lt s records h.1)

  fit_systems-IsPage :
      (records : List EventRecord)
      → Before position records
      → Gives (IsPage position) (fit_systems protocol systems position records)
  fit_systems-IsPage [] h = (omega arith, λ some_position. absurd (omega (arith, some_position)))
  fit_systems-IsPage (r ∷ records) h =
      let total = bytes_of (r ∷ records) in
      elim (Bool-cases (ltb max_window_decode_bytes total)) [
        | inl too_large ↦ rw too_large tt
        | inr fits ↦ rw fits (
          ground (
            arith,
            fits,
            sum_by-sort_by record_before (λ (r : EventRecord). r.bytes) (r ∷ records),
          ),
          λ some_position. least_position-lt r records h,
        )
      ]

  fit-IsPage :
      (groups : List GroupRecord)
      → All (λ (g : GroupRecord). g.first_position < position) groups
      → Before position systems
      → Gives (IsPage position) (fit protocol systems position groups)
  unfolding fit
  fit-IsPage [] first h =
      fit_systems-IsPage (filter (λ (r : EventRecord). ltb r.position position) systems)
        (All-filter_by _ _ systems h)
  fit-IsPage (group ∷ groups) first h = fit_groups-IsPage group groups first

selected_groups-before :
    (records : List EventRecord) (position : ℕ) (limit : Option ℕ)
    → All
        (λ (g : GroupRecord). g.first_position < position)
        (selected_groups records position limit)
unfolding selected_groups
selected_groups-before records position limit =
    let groups = values (group_records records []) in
    let early : GroupRecord → Bool = λ g. ltb g.first_position position in
    let found = sort_by group_before (filter early groups) in
    All-drop (λ (g : GroupRecord). g.first_position < position)
      (length found - normalize_limit limit) found
      (All-sort_by group_before _ (filter early groups) (
        All-weaken (λ g. early g ≡ true) _ (filter early groups)
          (λ g. λ passed. ground (arith, passed)) (All-passed early groups)))

-- Where `selectWindow` chooses a window from records before the cursor, its records have at most the
-- bytes of a window, and its start, from which the next cursor goes on, is 0 or before the cursor.
pub select_window-IsPage :
    (protocol : Protocol) (records : List EventRecord) (position : ℕ) (limit : Option ℕ)
    → Before position records
    → Gives (IsPage position) (select_window protocol records position limit)
unfolding select_window
select_window-IsPage protocol records position limit h =
    fit-IsPage protocol (systems_of records) position (selected_groups records position limit)
      (selected_groups-before records position limit) (All-filter_by _ _ records h)
