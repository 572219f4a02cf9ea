-- ===== src/Service/Handlers.antt =====
-- v2_service.ts: `handle` and its handlers.
use remote_pi.Base.{
  ℕ, ◌+◌, String, Bool, true, not, Option, none, some, List, [], ◌∷◌, if◌then◌else◌,
}
use remote_pi.Base.Equality.{◌==◌, string_eq}
use remote_pi.Base.JsMap
use remote_pi.SessionState.Types.{
  Status, received, queued, accepted, committed, unknown_delivery, IdempotencyRecord, ChannelState,
  BeginResult, fresh, replay, conflict, State, Result, ok, err, get_channel, hello, touch,
}
use remote_pi.SessionState.Records.{begin, update, get_record, forget}
use remote_pi.Service.Types.{
  Head, Payload, UserMessage, ClientFrame, session_hello, pair_request, session_sync, ping, cancel,
  list_models, action, unimplemented, user_message, user_message_observed, queued_message_clear,
  ErrorCode, protocol_upgrade_required, invalid_channel, invalid_message, unsupported_type,
  too_large, internal_error, generation_changed, ServerFrame, session_ready, reset, protocol_error,
  pong, cancelled, models_list, pwa, unknown_origin, Correlation, Delivery, delivered, declined,
  queued_for_later, rejected, thrown, Answers, Effect, deliver, cancel_active, run_action,
  clear_queued, Service, Handled, reply,
}
use remote_pi.Service.Records.{request_key, status_frame, truthy, report_unknown}

abbrev pub error : Head → ErrorCode → ServerFrame
error head code = protocol_error head.id code (some head.channel_id)

ready_at : ℕ → Head → Service → Option ChannelState → Service × Option ServerFrame
ready_at now head v none = (v, some (error head invalid_channel))
ready_at now head v (some channel) =
    if not (head.history_generation == v.generation)
    then (v, some (reset head.channel_id v.generation generation_changed))
    else let (state, touched) = touch now v.sender_ref head.channel_id v.state in
      (record v { state = state }, none)

-- `ensureReady`, for the frames that have a head.
unfoldable pub ensure_ready : ℕ → Head → Service → Service × Option ServerFrame
unfolding ready_at
ensure_ready now head v = ready_at now head v (get_channel v.sender_ref head.channel_id v.state)

-- A handler that answers the error of `ensureReady`, or goes on.
unfoldable pub when_ready : ℕ → Head → (Service → Handled) → Service → Handled
when_ready now head rest v =
    let (v', refused) = ensure_ready now head v in
    let answer = rest v' in elim refused [ none ↦ answer | some frame ↦ reply v' (frame ∷ []) ]

hello_result : String → String → Service → State × Result ChannelState → Handled
hello_result id channel_id v (state, ok channel) =
    reply (record v { state = state }) (session_ready id channel_id v.generation v.sender_ref ∷ [])
hello_result id channel_id v (state, err e) = (record v { state = state }, none, [])

observed_result : Head → String → Service → Option IdempotencyRecord → Handled
observed_result head client_request_id v none = reply v (error head invalid_message ∷ [])
observed_result head client_request_id v (some r) =
    if not (r.sender_ref == v.sender_ref)
    then reply v (error head invalid_message ∷ [])
    else reply
        (record v {
          state = (forget r.key v.state).0;
          request_channels = JsMap.delete v.request_channels client_request_id;
        })
        []

unfoldable pub handle_observed : (ℕ → ℕ) → Head → String → Service → Handled
unfolding observed_result
handle_observed clock head client_request_id v =
    let (state, found) = get_record (clock 1) (request_key v client_request_id) v.state in
    observed_result head client_request_id (record v { state = state }) found

-- The private method `status`.
abbrev pub status : Service → UserMessage → Status → Option String → Option String → ServerFrame
status v m s message_id group_id =
    status_frame v m.head.channel_id m.head.id m.client_request_id s (truthy message_id)
      (truthy group_id)

abbrev later : ℕ → (ℕ → ℕ) → ℕ → ℕ
later n clock k = clock (n + k)

unfoldable pub unknown : (ℕ → ℕ) → UserMessage → Service → List Effect → Handled
unknown clock m v effects =
    let (v', frames) = report_unknown clock m.client_request_id v in (v', some frames, effects)

-- The method `replay`, by the status of the record.
unfoldable pub replay_status :
    (ℕ → ℕ) → UserMessage → IdempotencyRecord → Service → Status → Handled
unfolding unknown
replay_status clock m r v unknown_delivery = unknown clock m v []
replay_status clock m r v received = reply v (status v m received none none ∷ [])
replay_status clock m r v queued = reply v (status v m accepted none none ∷ [])
replay_status clock m r v committed = reply v (status v m committed r.message_id r.group_id ∷ [])
replay_status clock m r v accepted = reply v (status v m accepted r.message_id r.group_id ∷ [])

unfoldable pub correlation_of : UserMessage → Service → Correlation
correlation_of m v =
    if m.payload.steer
    then record {
      origin = unknown_origin;
      client_request_id = none;
      request_id = some m.head.id;
      channel_id = some m.head.channel_id;
      sender_ref = none;
    }
    else record {
      origin = pwa;
      client_request_id = some m.client_request_id;
      request_id = some m.head.id;
      channel_id = some m.head.channel_id;
      sender_ref = some v.sender_ref;
    }

-- What follows the call of `onUserMessage`, which has been made.
unfoldable pub after_delivery :
    (ℕ → ℕ) → UserMessage → String → List Effect → Service → Delivery → Handled
unfolding unknown
after_delivery clock m key effects v rejected = (
  record v {
    state = (forget key v.state).0;
    request_channels = JsMap.delete v.request_channels m.client_request_id;
  },
  some (error m.head too_large ∷ []),
  effects,
)
after_delivery clock m key effects v declined = unknown clock m v effects
after_delivery clock m key effects v thrown = unknown clock m v effects
after_delivery clock m key effects v queued_for_later =
    let v' : Service = record v {
      state = (update (clock 0) (clock 1) key queued none none v.state).0;
    } in
    (v', some (status v' m accepted none none ∷ []), effects)
after_delivery clock m key effects v delivered =
    let uncertain = unknown clock m v effects in
    if m.payload.steer then uncertain else (v, some (status v m received none none ∷ []), effects)

-- What follows `state.begin`.
unfoldable pub begun : (ℕ → ℕ) → UserMessage → Delivery → Service → BeginResult → Handled
unfolding replay_status correlation_of after_delivery
begun clock m answer v (conflict r) = reply v (error m.head invalid_message ∷ [])
begun clock m answer v (replay r) = replay_status clock m r v r.status
begun clock m answer v (fresh r) =
    let v' : Service = record v {
      request_channels = JsMap.set v.request_channels m.client_request_id m.head.channel_id;
    } in
    after_delivery clock m r.key (deliver m (correlation_of m v) ∷ []) v' answer

unfoldable pub begin_result :
    (ℕ → ℕ) → UserMessage → Delivery → Service → Result BeginResult → Handled
unfolding begun
begin_result clock m answer v (ok b) = begun clock m answer v b
begin_result clock m answer v (err e) = (v, none, [])

module _ (fingerprint : Payload → String) where
  -- `handleUserMessage` after `ensureReady`, which reads the clock first.
  unfoldable pub handle_user_message : (ℕ → ℕ) → UserMessage → Delivery → Service → Handled
  unfolding begin_result
  handle_user_message clock m answer v =
      let (state, result) =
        begin fingerprint (clock 1) (clock 2)
          (record {
            sender_ref = v.sender_ref;
            client_request_id = m.client_request_id;
            payload = m.payload;
          })
          v.state in
      begin_result (later 3 clock) m answer (record v { state = state }) result

  cancel_answer : Head → Service → Option Bool → Handled
  cancel_answer head v (some true) =
      (v, some (cancelled head.channel_id head.id ∷ []), cancel_active ∷ [])
  cancel_answer head v _ = (v, some (error head internal_error ∷ []), cancel_active ∷ [])

  unfoldable pub handle : (ℕ → ℕ) → Answers → ClientFrame → Service → Handled
  unfolding hello_result handle_observed handle_user_message cancel_answer
  handle clock answers (session_hello id channel_id) v =
      hello_result id channel_id v (hello (clock 0) v.sender_ref channel_id v.state)
  handle clock answers (pair_request id) v =
      reply v (protocol_error id protocol_upgrade_required none ∷ [])
  handle clock answers (session_sync head before limit) v =
      when_ready (clock 0) head (λ v'. reply v' answers.history_frames) v
  handle clock answers (ping head) v =
      when_ready (clock 0) head (λ v'. reply v' (pong head.channel_id head.id ∷ [])) v
  handle clock answers (cancel head) v =
      when_ready (clock 0) head (λ v'. cancel_answer head v' answers.on_cancel) v
  handle clock answers (user_message m) v =
      when_ready (clock 0) m.head (handle_user_message clock m answers.on_user_message) v
  handle clock answers (user_message_observed head client_request_id) v =
      when_ready (clock 0) head (handle_observed clock head client_request_id) v
  handle clock answers (action head) v =
      when_ready (clock 0) head
        (λ v'.
          if not answers.has_action
          then reply v' (error head unsupported_type ∷ [])
          else if answers.action_returns
          then (v', some [], run_action ∷ [])
          else (v', some (error head internal_error ∷ []), run_action ∷ []))
        v
  handle clock answers (unimplemented head) v =
      when_ready (clock 0) head (λ v'. reply v' (error head unsupported_type ∷ [])) v
  handle clock answers (list_models head) v =
      when_ready (clock 0) head
        (λ v'.
          if not answers.has_models
          then reply v' (error head unsupported_type ∷ [])
          else if answers.models_return
          then reply v' (models_list head.channel_id head.id ∷ [])
          else reply v' (error head internal_error ∷ []))
        v
  handle clock answers (queued_message_clear head target_id) v =
      when_ready (clock 0) head (λ v'. (v', some [], clear_queued target_id ∷ [])) v
