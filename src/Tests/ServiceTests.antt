-- ===== src/Tests/ServiceTests.antt =====
-- v2_service.ts: a message that comes again with another text.
use remote_pi.Base.{String, ◌+◌, ◌≡◌, refl, true, false, some, none, List, [], ◌∷◌, arith}
use remote_pi.Base.Equality.{◌==◌, string_eq}
use remote_pi.Base.JsMap
use remote_pi.SessionState.Types.{
  Options, IdempotencyRecord, State, Result, ok, create, is_valid_id, record_key,
}
use remote_pi.SessionState.Calls.{Call, begin_call, run_call, run_calls}
use remote_pi.SessionState.Records.{begin, find_or_insert, prune, prune_capacity, drop_expired}
use remote_pi.SessionState.Preserve.{IsWellFormed}
use remote_pi.SessionState.Invariant.{run_calls-IsWellFormed}
use remote_pi.Service.Types.{Payload, UserMessage, delivered, Service, invalid_message}
use remote_pi.Service.Handlers.{handle_user_message, error}
use remote_pi.Service.Delivery.{IsConsistent, repeated_message_not_delivered}

abbrev text_of : Payload → String
text_of payload = payload.text

abbrev sample_options : Options
sample_options = record { generation = "g"; max_entries = none; ttl_ms = none }

abbrev empty_state : State
empty_state = record {
  generation = "g";
  max_entries = 512;
  ttl_ms = 600000;
  channels = [];
  records = [];
}

create-sample_options : create sample_options ≡ ok empty_state
unfolding create
create-sample_options = refl

abbrev first_begin : List (Call Payload)
first_begin =
    begin_call 1 2 (record {
      sender_ref = "o";
      client_request_id = "r";
      payload = record { text = "hi"; images = []; steer = false };
    })
    ∷ []

abbrev seen : IdempotencyRecord
seen = record {
  key = record_key "g" "o" "r";
  generation = "g";
  sender_ref = "o";
  client_request_id = "r";
  fingerprint = "hi";
  status = remote_pi.SessionState.Types.Status.received;
  message_id = none;
  group_id = none;
  touched_at = 2;
}

abbrev seen_state : State
seen_state = record empty_state { records = (record_key "g" "o" "r", seen) ∷ [] }

first_begin-seen_state : run_calls text_of first_begin empty_state ≡ seen_state
unfolding run_calls begin run_call is_valid_id find_or_insert prune prune_capacity drop_expired
    JsMap.get JsMap.set
first_begin-seen_state = refl

seen_state-IsWellFormed : IsWellFormed seen_state
seen_state-IsWellFormed =
    rw (← first_begin-seen_state)
      (run_calls-IsWellFormed text_of sample_options empty_state first_begin create-sample_options)

abbrev sample_service : Service
sample_service = record {
  state = seen_state;
  sender_ref = "o";
  request_channels = ("r", "c") ∷ [];
  generation = "g";
}

sample_service-IsConsistent : IsConsistent sample_service
sample_service-IsConsistent = record {
  well_formed = seen_state-IsWellFormed;
  same_generation = refl;
}

abbrev again : UserMessage
again = record {
  head = record { id = "f"; channel_id = "c"; history_generation = "g" };
  client_request_id = "r";
  payload = record { text = "ho"; images = []; steer = false };
}

valid_owner : is_valid_id "o" ≡ true
unfolding is_valid_id
valid_owner = refl

valid_request : is_valid_id "r" ≡ true
unfolding is_valid_id
valid_request = refl

repeated_message_not_delivered_example :
    let handled = handle_user_message text_of (λ k. k + 5) again delivered sample_service in
    (handled.2 ≡ [])
    × ((seen.fingerprint == text_of again.payload) ≡ false
        → handled.1 ≡ some (error again.head invalid_message ∷ []))
repeated_message_not_delivered_example =
    repeated_message_not_delivered text_of (λ k. k + 5) again delivered sample_service seen
      sample_service-IsConsistent valid_owner valid_request (unfold JsMap.get record_key in refl)
      (omega arith)
