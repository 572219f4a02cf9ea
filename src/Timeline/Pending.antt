-- ===== src/Timeline/Pending.antt =====
-- timeline-runtime.ts: the scope and the pending messages.
use remote_pi.Base.{
  ℕ, String, Bool, false, not, ◌&&◌, ◌||◌, Option, none, some, List, [], ◌∷◌, ◌++◌, map, length,
  ltb, is_some, if◌then◌else◌,
}
use remote_pi.Base.Equality.{◌==◌, string_eq}
use remote_pi.Base.JsMap
use remote_pi.Base.JsMap.{JsMap, values}
use remote_pi.Display.Types.{TimelinePartial, or_empty}
use remote_pi.Timeline.Types.{
  TimelineScope, pending_delivery, unknown_delivery, TimelinePending, UserMessageFrame, FrameScope,
  Runtime, Change,
}

abbrev pub empty : Runtime
empty = record {
  scope = none;
  events = [];
  partials = [];
  pending = [];
  history_events = [];
  unknown = [];
  queued_ids = [];
  queued_snapshot_id = none;
  queued_snapshot_items = [];
  observed_queue = [];
}

-- `change`: `observedQueue.splice(0)` empties the queue.
unfoldable pub change : Runtime → Runtime × Change
change s =
    (record s { observed_queue = [] }, record { observed = s.observed_queue; unknown = s.unknown })

abbrev pub is_matching_scope : Option TimelineScope → FrameScope → Bool
is_matching_scope none frame = false
is_matching_scope (some scope) frame =
    scope.session_id == frame.session_id && scope.history_generation == frame.history_generation

pub merge_delta : Option (List ℕ) → Option (List ℕ) → Option (List ℕ)
merge_delta previous none = previous
merge_delta previous (some delta) = some (or_empty previous ++ delta)

unfoldable pub merge_partial : Option TimelinePartial → TimelinePartial → TimelinePartial
unfolding merge_delta
merge_partial none next = next
merge_partial (some previous) next =
    if is_some next.blocks
    then next
    else record next { delta = merge_delta previous.delta next.delta }

abbrev pub as_unknown : TimelinePending → TimelinePending
as_unknown p = record p { delivery = unknown_delivery }

-- `clearTransient(true)`
unfoldable pub clear_transient : Runtime → Runtime
clear_transient s = record s {
  partials = [];
  queued_ids = [];
  queued_snapshot_items = [];
  queued_snapshot_id = none;
  unknown = s.unknown ++ map as_unknown (values s.pending);
  pending = [];
}

abbrev pub same_scope : Option TimelineScope → TimelineScope → Bool
same_scope none next = false
same_scope (some old) next =
    old.device_id == next.device_id
    && (old.endpoint_id == next.endpoint_id
        && (old.runtime_instance_id == next.runtime_instance_id
            && (old.session_id == next.session_id
                && old.history_generation == next.history_generation)))

unfoldable pub set_scope : TimelineScope → Runtime → Runtime
set_scope scope s =
    if same_scope s.scope scope
    then record s { scope = some scope }
    else record (clear_transient s) { events = []; history_events = []; scope = some scope }

unfoldable pub invalidate_scope : Runtime → Runtime
invalidate_scope s = record (clear_transient s) { scope = none; events = []; history_events = [] }

unfoldable pub clear : Runtime → Runtime
clear s = record s {
  scope = none;
  events = [];
  partials = [];
  pending = [];
  history_events = [];
  unknown = [];
}

unfoldable pub mark_disconnected : Runtime → Runtime
mark_disconnected s = clear_transient s

-- `images?.length ? { images } : {}`
abbrev pub some_images : List String → Option (List String)
some_images [] = none
some_images (i ∷ images) = some (i ∷ images)

abbrev pub or_no_images : Option (List String) → List String
or_no_images none = []
or_no_images (some images) = images

abbrev pub user_message_frame :
    TimelineScope → String → String → String → List String → UserMessageFrame
user_message_frame scope request_id client_request_id text images = record {
  id = request_id;
  channel_id = scope.channel_id;
  history_generation = scope.history_generation;
  client_request_id = client_request_id;
  text = text;
  images = some_images images;
}

pub send_in_scope :
    ℕ
    → Bool
    → String
    → List String
    → String
    → String
    → Runtime
    → Option TimelineScope
    → Runtime × Option UserMessageFrame
send_in_scope now blank text images client_request_id request_id s none = (s, none)
send_in_scope now blank text images client_request_id request_id s (some scope) =
    if ltb 1 (length images) || (blank && not (ltb 0 (length images))) then (s, none) else (
      record s {
        pending = JsMap.set s.pending client_request_id (record {
          client_request_id = client_request_id;
          request_id = request_id;
          text = text;
          images = some_images images;
          cancelable = none;
          created_at = now;
          delivery = pending_delivery;
          message_id = none;
        });
      },
      some (user_message_frame scope request_id client_request_id text images),
    )

-- `sendUser`; `blank` is `!text.trim()`, and no images are the empty list.
unfoldable pub send_user :
    ℕ → Bool → String → List String → String → String → Runtime → Runtime × Option UserMessageFrame
unfolding send_in_scope
send_user now blank text images client_request_id request_id s =
    send_in_scope now blank text images client_request_id request_id s s.scope

-- A pending message becomes one of unknown delivery.
unfoldable pub give_up : TimelinePending → Runtime → Runtime
give_up p s = record s {
  pending = JsMap.delete s.pending p.client_request_id;
  unknown = s.unknown ++ as_unknown p ∷ [];
}

unfoldable pub mark_unknown_delivery : String → Runtime → Runtime
mark_unknown_delivery client_request_id s =
    let known = s in
    elim (JsMap.get s.pending client_request_id) [
      | none ↦ known
      | some p ↦ record s {
        pending = JsMap.delete s.pending client_request_id;
        unknown = s.unknown ++ as_unknown p ∷ [];
      }
    ]

-- `findIndex` and `splice`: the first match, and the others.
unfoldable pub take_unknown :
    String → List TimelinePending → Option (TimelinePending × List TimelinePending)
take_unknown id [] = none
take_unknown id (p ∷ unknown) =
    let rest = take_unknown id unknown in
    if p.client_request_id == id
    then some (p, unknown)
    else elim rest [ none ↦ none | some (q, others) ↦ some (q, p ∷ others) ]

pub retry_taken :
    String
    → String
    → Runtime
    → Option TimelineScope
    → Option (TimelinePending × List TimelinePending)
    → Runtime × Option UserMessageFrame
retry_taken client_request_id request_id s (some scope) (some (previous, others)) = (
  record s {
    unknown = others;
    pending =
        JsMap.set s.pending client_request_id
          (record previous { request_id = request_id; delivery = pending_delivery });
  },
  some (
      user_message_frame scope request_id client_request_id previous.text
        (or_no_images previous.images)),
)
retry_taken client_request_id request_id s _ _ = (s, none)

unfoldable pub retry_unknown : String → String → Runtime → Runtime × Option UserMessageFrame
unfolding retry_taken
retry_unknown client_request_id request_id s =
    retry_taken client_request_id request_id s s.scope (take_unknown client_request_id s.unknown)
