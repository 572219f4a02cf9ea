-- ===== src/Timeline/Frames.antt =====
-- timeline-runtime.ts: `receive`, with one function for each type of frame.
use remote_pi.Base.{
  ℕ, String, Bool, true, false, not, ◌&&◌, ◌||◌, Option, none, some, List, [], ◌∷◌, ◌++◌, map,
  filter, any, is_some, if◌then◌else◌,
}
use remote_pi.Base.Equality.{◌==◌, string_eq, nat_eq}
use remote_pi.Base.JsMap
use remote_pi.Base.JsMap.{JsMap, values, has}
use remote_pi.Display.Types.{TimelinePartial, TimelinePartialView}
use remote_pi.Timeline.Types.{
  TimelineScope, PendingDelivery, accepted, unknown_delivery, TimelinePending, QueuedItem,
  FrameScope, QueuedState, ServerFrame, reset_frame, other_frame, queued_message_state,
  protocol_error, user_message_status, user_message_started, timeline_partial, timeline_event,
  Runtime, Decoders,
}
use remote_pi.Timeline.Pending.{change, is_matching_scope, merge_partial, invalidate_scope, give_up}
use remote_pi.Timeline.Runtime.{reconcile_user_message, commit}

abbrev pub set_items : List QueuedItem → JsMap String QueuedItem → JsMap String QueuedItem
set_items [] m = m
set_items (item ∷ items) m = set_items items (JsMap.set m item.id item)

abbrev pub has_no_message : Option TimelinePending → Bool
has_no_message none = true
has_no_message (some p) = not (is_some p.message_id)

-- A message that is no longer queued and was not started is forgotten.
unfoldable pub drop_unqueued :
    List String → List String → JsMap String TimelinePending → JsMap String TimelinePending
drop_unqueued next_ids [] pending = pending
drop_unqueued next_ids (id ∷ ids) pending = drop_unqueued next_ids ids (
    if not (any (λ i. i == id) next_ids) && has_no_message (JsMap.get pending id)
    then JsMap.delete pending id
    else pending)

unfoldable pub queue_item : TimelineScope → QueuedItem → Runtime → Option TimelinePending → Runtime
queue_item scope item s (some existing) = record s {
  pending = JsMap.set s.pending item.id (record existing {
    text = item.text;
    images = item.images;
    cancelable = some (item.sender_ref == scope.self_sender_ref);
    delivery = accepted;
  });
}
queue_item scope item s none = record s {
  unknown = filter (λ p. not (p.client_request_id == item.id)) s.unknown;
  pending = JsMap.set s.pending item.id (record {
    client_request_id = item.id;
    request_id = item.id;
    text = item.text;
    images = item.images;
    cancelable = some (item.sender_ref == scope.self_sender_ref);
    created_at = item.created_at;
    delivery = accepted;
    message_id = none;
  });
}

unfoldable pub queue_items : TimelineScope → List QueuedItem → Runtime → Runtime
unfolding queue_item
queue_items scope [] s = s
queue_items scope (item ∷ items) s =
    queue_items scope items (queue_item scope item s (JsMap.get s.pending item.id))

-- The last chunk of a snapshot: it is the queue now.
unfoldable pub take_snapshot : TimelineScope → Runtime → Runtime
take_snapshot scope s =
    let next_items = values s.queued_snapshot_items in
    let next_ids = map (λ (item : QueuedItem). item.id) next_items in
    let queued =
      queue_items scope next_items
        (record s { pending = drop_unqueued next_ids s.queued_ids s.pending }) in
    record queued { queued_ids = next_ids; queued_snapshot_items = []; queued_snapshot_id = none }

abbrev pub is_snapshot : Option String → String → Bool
is_snapshot none id = false
is_snapshot (some old) id = old == id

-- The items of a chunk, after those that the snapshot has already.
unfoldable pub add_chunk : QueuedState → Runtime → Runtime
add_chunk frame s =
    let kept =
      if not (is_snapshot s.queued_snapshot_id frame.snapshot_id) || frame.chunk_index == 0
      then []
      else s.queued_snapshot_items in
    let snapshot_id =
      if not (is_snapshot s.queued_snapshot_id frame.snapshot_id) || frame.chunk_index == 0
      then some frame.snapshot_id
      else s.queued_snapshot_id in
    record s {
      queued_snapshot_id = snapshot_id;
      queued_snapshot_items = set_items frame.items kept;
    }

unfoldable pub queued_in_scope : QueuedState → Runtime → Option TimelineScope → Runtime
queued_in_scope frame s none = s
queued_in_scope frame s (some scope) =
    let added = add_chunk frame s in
    if not (is_matching_scope (some scope) frame.scope)
    then s
    else if not frame.final
    then added
    else take_snapshot scope added

unfoldable pub receive_queued : QueuedState → Runtime → Runtime
unfolding queued_in_scope
receive_queued frame s = queued_in_scope frame s s.scope

-- The pending message that was sent with this request id.
unfoldable pub find_request : String → List TimelinePending → Option TimelinePending
find_request id [] = none
find_request id (p ∷ pending) =
    let rest = find_request id pending in if p.request_id == id then some p else rest

unfoldable pub fail_found : Runtime → Option TimelinePending → Runtime
fail_found s none = s
fail_found s (some p) = give_up p s

unfoldable pub receive_error : Option String → Runtime → Runtime
unfolding fail_found
receive_error none s = s
receive_error (some in_reply_to) s =
    if in_reply_to == "" then s else fail_found s (find_request in_reply_to (values s.pending))

unfoldable pub reconcile_given : Option String → Runtime → Runtime
reconcile_given none s = s
reconcile_given (some message_id) s =
    if message_id == "" then s else reconcile_user_message message_id s

abbrev pub truthy_or : Option String → Option String → Option String
truthy_or none old = old
truthy_or (some id) old = if id == "" then old else some id

abbrev pub is_unknown : PendingDelivery → Bool
is_unknown unknown_delivery = true
is_unknown _ = false

unfoldable pub status_found :
    String → PendingDelivery → Option String → Runtime → Option TimelinePending → Runtime
unfolding reconcile_given
status_found id status message_id s none = s
status_found id status message_id s (some old) =
    let p : TimelinePending = record old {
      delivery = status;
      message_id = truthy_or message_id old.message_id;
    } in
    let s' = reconcile_given message_id (record s { pending = JsMap.set s.pending id p }) in
    if is_unknown status && has s'.pending id
    then reconcile_given p.message_id
        (record s' { pending = JsMap.delete s'.pending id; unknown = s'.unknown ++ p ∷ [] })
    else s'

unfoldable pub receive_status :
    FrameScope → String → PendingDelivery → Option String → Runtime → Runtime
unfolding status_found
receive_status scope id status message_id s =
    if not (is_matching_scope s.scope scope)
    then s
    else status_found id status message_id s (JsMap.get s.pending id)

unfoldable pub started_found : String → Runtime → Option TimelinePending → Runtime
started_found message_id s none = s
started_found message_id s (some p) = reconcile_user_message message_id (record s {
  pending =
      JsMap.set s.pending p.client_request_id
        (record p { delivery = accepted; message_id = some message_id });
})

unfoldable pub receive_started : FrameScope → String → String → Runtime → Runtime
unfolding started_found
receive_started scope in_reply_to message_id s =
    if not (is_matching_scope s.scope scope)
    then s
    else started_found message_id s (find_request in_reply_to (values s.pending))

partial_of : Option TimelinePartialView → Option TimelinePartial
partial_of none = none
partial_of (some view) = some view.partial

created_or : ℕ → Option TimelinePartialView → ℕ
created_or now none = now
created_or now (some view) = view.created_at

unfoldable pub partial_found : ℕ → Runtime → Option TimelinePartial → Runtime
unfolding partial_of created_or
partial_found now s none = s
partial_found now s (some p) =
    let previous = JsMap.get s.partials p.partial_id in
    record s {
      partials = JsMap.set s.partials p.partial_id (record {
        partial = merge_partial (partial_of previous) p;
        created_at = created_or now previous;
      });
    }

module _ (decoders : Decoders) where
  unfoldable pub receive_partial : ℕ → FrameScope → TimelinePartial → Runtime → Runtime
  unfolding partial_found
  receive_partial now scope p s =
      if not (is_matching_scope s.scope scope)
      then s
      else partial_found now s (decoders.parse_partial p)

  -- The state that `receive` leaves before its `change`.
  unfoldable pub receive : ℕ → ServerFrame → Runtime → Runtime
  receive now reset_frame s = invalidate_scope s
  receive now other_frame s = s
  receive now (queued_message_state frame) s = receive_queued frame s
  receive now (protocol_error in_reply_to) s = receive_error in_reply_to s
  receive now (user_message_status scope id status message_id) s =
      receive_status scope id status message_id s
  receive now (user_message_started scope in_reply_to message_id) s =
      receive_started scope in_reply_to message_id s
  receive now (timeline_partial scope p) s = receive_partial now scope p s
  receive now (timeline_event scope event) s =
      if is_matching_scope s.scope scope then commit decoders event s else s

  unfoldable pub receive_all : ℕ → List ServerFrame → Runtime → Runtime
  receive_all now [] s = s
  receive_all now (frame ∷ frames) s = receive_all now frames (change (receive now frame s)).0
