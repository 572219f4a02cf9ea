-- ===== src/Service/Records.antt =====
-- v2_service.ts: the methods on idempotency records and on the generation. `clock k` is the k-th
-- reading of the clock in a method.
use remote_pi.Base.{
  ℕ, String, Bool, true, false, Option, none, some, List, [], ◌∷◌, map, ◌||◌, if◌then◌else◌,
}
use remote_pi.Base.Equality.{◌==◌, string_eq}
use remote_pi.Base.JsMap
use remote_pi.Base.JsMap.{values}
use remote_pi.SessionState.Types.{
  Status, received, queued, accepted, committed, IdempotencyRecord, ChannelState, record_key,
  set_generation,
}
use remote_pi.SessionState.Records.{update, remember_unknown_delivery, get_record, snapshot}
use remote_pi.Service.Types.{
  ServerFrame, user_message_status, user_message_started, ResetReason, reset, TimelineStarted,
  Service,
}

abbrev pub request_key : Service → String → String
request_key v client_request_id = record_key v.generation v.sender_ref client_request_id

-- The record and its channel, if there are both.
abbrev pub both : Option IdempotencyRecord → Option String → Option (IdempotencyRecord × String)
both none channel = none
both (some r) none = none
both (some r) (some channel) = if channel == "" then none else some (r, channel)

unfoldable pub find_record : ℕ → String → Service → Service × Option (IdempotencyRecord × String)
find_record now client_request_id v =
    let (state, found) = get_record now (request_key v client_request_id) v.state in
    (record v { state = state }, both found (JsMap.get v.request_channels client_request_id))

abbrev pub status_frame :
    Service → String → String → String → Status → Option String → Option String → ServerFrame
status_frame v channel in_reply_to client_request_id status message_id group_id =
    user_message_status (record {
      target_channel_id = channel;
      in_reply_to = in_reply_to;
      history_generation = v.generation;
      client_request_id = client_request_id;
      status = status;
      message_id = message_id;
      group_id = group_id;
    })

-- `...(x ? { key: x } : {})`
abbrev pub truthy : Option String → Option String
truthy none = none
truthy (some x) = if x == "" then none else some x

abbrev pub or_id : Option String → String → String
or_id none fallback = fallback
or_id (some id) fallback = id

started_found :
    (ℕ → ℕ)
    → TimelineStarted
    → String
    → Service
    → Option (IdempotencyRecord × String)
    → Service × List ServerFrame
started_found clock started client_request_id v none = (v, [])
started_found clock started client_request_id v (some (r, channel)) =
    let (state, updated) =
      update (clock 1) (clock 2) r.key accepted (some started.event_id) (some started.group_id)
        v.state in
    let in_reply_to = or_id started.correlation.request_id client_request_id in
    (
      record v { state = state },
      status_frame v channel in_reply_to client_request_id accepted (some started.event_id)
            (some started.group_id)
          ∷ user_message_started channel in_reply_to started.event_id started.group_id
          ∷ [],
    )

started_request : (ℕ → ℕ) → TimelineStarted → Service → Option String → Service × List ServerFrame
unfolding started_found
started_request clock started v none = (v, [])
started_request clock started v (some client_request_id) =
    if client_request_id == ""
    then (v, [])
    else let (v', found) = find_record (clock 0) client_request_id v in
      started_found clock started client_request_id v' found

-- The method `started`.
unfoldable pub on_started : (ℕ → ℕ) → TimelineStarted → Service → Service × List ServerFrame
unfolding started_request
on_started clock started v = started_request clock started v started.correlation.client_request_id

commit_updated :
    String → String → Option String → String → Service → Option IdempotencyRecord → List ServerFrame
commit_updated client_request_id message_id group_id channel v none = []
commit_updated client_request_id message_id group_id channel v (some r) =
    status_frame v channel client_request_id client_request_id committed (some message_id)
      (truthy group_id)
    ∷ []

commit_found :
    (ℕ → ℕ)
    → String
    → String
    → Option String
    → Service
    → Option (IdempotencyRecord × String)
    → Service × List ServerFrame
unfolding commit_updated
commit_found clock client_request_id message_id group_id v none = (v, [])
commit_found clock client_request_id message_id group_id v (some (r, channel)) =
    let (state, updated) =
      update (clock 1) (clock 2) r.key committed (some message_id) group_id v.state in
    (
      record v { state = state },
      commit_updated client_request_id message_id group_id channel v updated,
    )

unfoldable pub commit :
    (ℕ → ℕ) → String → String → Option String → Service → Service × List ServerFrame
unfolding commit_found
commit clock client_request_id message_id group_id v =
    let (v', found) = find_record (clock 0) client_request_id v in
    commit_found clock client_request_id message_id group_id v' found

abbrev drainable : Option (IdempotencyRecord × String) → Bool
drainable none = false
drainable (some (r, channel)) = elim r.status [ received ↦ true | queued ↦ true | _ ↦ false ]

unfoldable pub can_drain : ℕ → String → Service → Service × Bool
can_drain now client_request_id v =
    let (v', found) = find_record now client_request_id v in (v', drainable found)

unknown_updated : String → String → Service → Option IdempotencyRecord → List ServerFrame
unknown_updated client_request_id channel v none = []
unknown_updated client_request_id channel v (some r) =
    status_frame v channel client_request_id client_request_id Status.unknown_delivery none none
    ∷ []

unknown_found :
    (ℕ → ℕ) → String → Service → Option (IdempotencyRecord × String) → Service × List ServerFrame
unfolding unknown_updated
unknown_found clock client_request_id v none = (v, [])
unknown_found clock client_request_id v (some (r, channel)) =
    let (state, updated) = remember_unknown_delivery (clock 1) (clock 2) r.key v.state in
    (record v { state = state }, unknown_updated client_request_id channel v updated)

-- The method `unknownDelivery`.
unfoldable pub report_unknown : (ℕ → ℕ) → String → Service → Service × List ServerFrame
unfolding unknown_found
report_unknown clock client_request_id v =
    let (v', found) = find_record (clock 0) client_request_id v in
    unknown_found clock client_request_id v' found

-- The method `reset`: one frame for each channel.
unfoldable pub reset_frames : ℕ → ResetReason → Service → Service × List ServerFrame
reset_frames now reason v =
    let (state, channels, records) = snapshot now v.state in
    (
      record v { state = state },
      map (λ (c : ChannelState). reset c.channel_id v.generation reason) channels,
    )

unfoldable pub refresh_generation : String → Service → Service × Bool
refresh_generation next v = if next == "" || next == v.generation then (v, false) else (
  record v { generation = next; state = (set_generation next v.state).0; request_channels = [] },
  true,
)
