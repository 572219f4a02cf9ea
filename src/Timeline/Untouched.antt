-- ===== src/Timeline/Untouched.antt =====
-- timeline-runtime.ts: what does not touch the events.
use remote_pi.Base.{ℕ, String, ◌≡◌, refl, ◌∙◌, Option, none, some, List, [], ◌∷◌, arith}
use remote_pi.Base.Equality.{string_eq}
use remote_pi.Base.JsMap
use remote_pi.Base.JsMap.{JsMap, values, has, get-set}
use remote_pi.Display.Types.{TimelinePartial}
use remote_pi.Timeline.Types.{
  TimelineScope, EventKind, user, assistant, provider_error, tool, other_kind, TimelineEvent,
  PendingDelivery, TimelinePending, QueuedItem, FrameScope, QueuedState, Runtime,
}
use remote_pi.Timeline.Pending.{give_up}
use remote_pi.Timeline.Runtime.{
  settle_all, reconcile_user_message, after_commit, drop_partials, matching_ids,
}
use remote_pi.Timeline.Frames.{
  queue_items, queue_item, take_snapshot, add_chunk, queued_in_scope, fail_found, receive_error,
  reconcile_given, status_found, receive_status, started_found, receive_started, partial_found,
  find_request,
}

pub settle_all-events :
    (message_id : String) (ids : List String) (s : Runtime)
    → (settle_all message_id ids s).events ≡ s.events
unfolding settle_all
settle_all-events message_id [] s = refl
settle_all-events message_id (id ∷ ids) s = settle_all-events message_id ids _

pub reconcile_user_message-events :
    (message_id : String) (s : Runtime) → (reconcile_user_message message_id s).events ≡ s.events
unfolding reconcile_user_message
reconcile_user_message-events message_id s =
    ground (arith, settle_all-events message_id (matching_ids message_id s) s)

pub reconcile_given-events :
    (message_id : Option String) (s : Runtime) → (reconcile_given message_id s).events ≡ s.events
unfolding reconcile_given
reconcile_given-events none s = refl
reconcile_given-events (some m) s = ground (arith, reconcile_user_message-events m s)

pub queue_item-events :
    (scope : TimelineScope) (item : QueuedItem) (s : Runtime) (found : Option TimelinePending)
    → (queue_item scope item s found).events ≡ s.events
unfolding queue_item
queue_item-events scope item s none = refl
queue_item-events scope item s (some p) = refl

pub queue_items-events :
    (scope : TimelineScope) (items : List QueuedItem) (s : Runtime)
    → (queue_items scope items s).events ≡ s.events
unfolding queue_items
queue_items-events scope [] s = refl
queue_items-events scope (item ∷ items) s =
    queue_items-events scope items _ ∙ queue_item-events scope item s _

pub queued_in_scope-events :
    (frame : QueuedState) (s : Runtime) (scope : Option TimelineScope)
    → (queued_in_scope frame s scope).events ≡ s.events
unfolding queued_in_scope take_snapshot add_chunk
queued_in_scope-events frame s none = refl
queued_in_scope-events frame s (some scope) = grind (arith, queue_items-events)

pub fail_found-events :
    (s : Runtime) (found : Option TimelinePending) → (fail_found s found).events ≡ s.events
unfolding fail_found give_up
fail_found-events s none = refl
fail_found-events s (some p) = refl

pub receive_error-events :
    (in_reply_to : Option String) (s : Runtime) → (receive_error in_reply_to s).events ≡ s.events
unfolding receive_error
receive_error-events none s = refl
receive_error-events (some id) s =
    ground (arith, fail_found-events s (find_request id (values s.pending)))

pub started_found-events :
    (message_id : String) (s : Runtime) (found : Option TimelinePending)
    → (started_found message_id s found).events ≡ s.events
unfolding started_found
started_found-events message_id s none = refl
started_found-events message_id s (some p) = reconcile_user_message-events message_id _

pub receive_started-events :
    (scope : FrameScope) (in_reply_to message_id : String) (s : Runtime)
    → (receive_started scope in_reply_to message_id s).events ≡ s.events
unfolding receive_started
receive_started-events scope in_reply_to message_id s =
    ground (arith, started_found-events message_id s (find_request in_reply_to (values s.pending)))

pub status_found-events :
    (id : String) (status : PendingDelivery) (message_id : Option String) (s : Runtime)
    (found : Option TimelinePending)
    → (status_found id status message_id s found).events ≡ s.events
unfolding status_found
status_found-events id status message_id s none = refl
status_found-events id status message_id s (some p) = grind (arith, reconcile_given-events)

pub receive_status-events :
    (scope : FrameScope) (id : String) (status : PendingDelivery) (message_id : Option String)
    (s : Runtime)
    → (receive_status scope id status message_id s).events ≡ s.events
unfolding receive_status
receive_status-events scope id status message_id s =
    ground (arith, status_found-events id status message_id s (JsMap.get s.pending id))

pub partial_found-events :
    (now : ℕ) (s : Runtime) (p : Option TimelinePartial) → (partial_found now s p).events ≡ s.events
unfolding partial_found
partial_found-events now s none = refl
partial_found-events now s (some p) = refl

pub after_commit-events :
    (event : TimelineEvent) (s : Runtime) (kind : EventKind)
    → (after_commit event s kind).events ≡ s.events
unfolding after_commit drop_partials
after_commit-events event s (user m) = reconcile_user_message-events m s
after_commit-events event s assistant = refl
after_commit-events event s provider_error = refl
after_commit-events event s tool = refl
after_commit-events event s other_kind = refl
