-- ===== src/Tests/SessionStateTests.antt =====
-- session_state.ts: two requests of one owner in a state of a single entry.
use remote_pi.Base.{
  String, ◌+◌, ◌≡◌, refl, not, some, none, List, [], ◌∷◌, ◌++◌, arith, ltb, length, if◌then◌else◌,
}
use remote_pi.Base.Equality.{◌==◌, string_eq}
use remote_pi.Base.JsMap.{get}
use remote_pi.Base.JsMap.Unique.{keep_if}
use remote_pi.SessionState.Types.{
  Options, Request, IdempotencyRecord, BeginResult, fresh, replay, conflict, State, ok, create,
  is_valid_id, record_key,
}
use remote_pi.SessionState.Records.{
  begin, remove_owner, get_record, drop_expired, find_or_insert, prune, prune_capacity,
}
use remote_pi.SessionState.Calls.{Call, begin_call, hello_call, run_calls}
use remote_pi.SessionState.Preserve.{IsWellFormed}
use remote_pi.SessionState.Invariant.{run_calls-IsWellFormed}
use remote_pi.SessionState.Idempotency.{record_of, HasValidIds, begin-begin, get_record_exact}
use remote_pi.SessionState.Owners.{remove_owner_exact}
use remote_pi.SessionState.Eviction.{drop_first, begin-fresh_records}

abbrev sample_options : Options
sample_options = record { generation = "g"; max_entries = some 1; ttl_ms = some 100 }

abbrev sample_state : State
sample_state = record {
  generation = "g";
  max_entries = 1;
  ttl_ms = 100;
  channels = [];
  records = [];
}

create-sample_options : create sample_options ≡ ok sample_state
unfolding create
create-sample_options = refl

abbrev fingerprint : String → String
fingerprint payload = payload

abbrev sample_request : Request String
sample_request = record { sender_ref = "o"; client_request_id = "r"; payload = "hi" }

abbrev sample_calls : List (Call String)
sample_calls = hello_call 1 "o" "c" ∷ begin_call 2 3 sample_request ∷ []

run_calls-IsWellFormed_example : IsWellFormed (run_calls fingerprint sample_calls sample_state)
run_calls-IsWellFormed_example =
    run_calls-IsWellFormed fingerprint sample_options sample_state sample_calls
      create-sample_options

sample_state-IsWellFormed : IsWellFormed sample_state
unfolding run_calls
sample_state-IsWellFormed =
    run_calls-IsWellFormed fingerprint sample_options sample_state [] create-sample_options

sample_request-HasValidIds : HasValidIds fingerprint sample_request
unfolding is_valid_id
sample_request-HasValidIds = (refl, refl)

begin-begin_example :
    let s' = (begin fingerprint 1 2 sample_request sample_state).0 in
    (b : BeginResult) × ((begin fingerprint 1 2 sample_request sample_state).1 ≡ ok b)
    × ((begin fingerprint 3 4 (record sample_request { payload = "ho" }) s').1
        ≡ ok (
            if (record_of b).fingerprint == "ho"
            then replay (record (record_of b) { touched_at = 4 })
            else conflict (record (record_of b) { touched_at = 4 })))
begin-begin_example =
    begin-begin fingerprint 1 2 3 4 sample_request "ho" sample_state sample_state-IsWellFormed
      sample_request-HasValidIds (omega arith)

abbrev inserted : IdempotencyRecord
inserted = record {
  key = record_key "g" "o" "r";
  generation = "g";
  sender_ref = "o";
  client_request_id = "r";
  fingerprint = "hi";
  status = remote_pi.SessionState.Types.Status.received;
  message_id = none;
  group_id = none;
  touched_at = 2;
}

begin_inserts : (begin fingerprint 1 2 sample_request sample_state).1 ≡ ok (fresh inserted)
unfolding begin is_valid_id find_or_insert get prune prune_capacity drop_expired
begin_inserts = refl

begin-fresh_records_example :
    let live = drop_expired 1 100 [] in
    (begin fingerprint 1 2 sample_request sample_state).0.records
    ≡ (if ltb (length live) 1 then live else drop_first live)
      ++ (record_key "g" "o" "r", inserted) ∷ []
begin-fresh_records_example =
    begin-fresh_records fingerprint 1 2 sample_request sample_state inserted
      sample_state-IsWellFormed begin_inserts

remove_owner_exact_example :
    let s = run_calls fingerprint sample_calls sample_state in
    let s' = remove_owner "o" s in
    let key = record_key "g" "o" "r" in
    ((get_record 5 key s').1
      ≡ keep_if (λ e. not (e.1.sender_ref == "o")) key (get_record 5 key s).1)
    × (get s'.records key ≡ keep_if (λ e. not (e.1.sender_ref == "o")) key (get s.records key))
    × (get s'.channels key ≡ keep_if (λ e. not (e.1.sender_ref == "o")) key (get s.channels key))
remove_owner_exact_example =
    remove_owner_exact "o" (run_calls fingerprint sample_calls sample_state) 5
      (record_key "g" "o" "r") run_calls-IsWellFormed_example

get_record_exact_example :
    let s = run_calls fingerprint sample_calls sample_state in
    (get_record 5 (record_key "g" "o" "r") s).1
    ≡ keep_if
        (λ e. ltb 5 (e.1.touched_at + s.ttl_ms))
        (record_key "g" "o" "r")
        (get s.records (record_key "g" "o" "r"))
get_record_exact_example =
    get_record_exact 5 (record_key "g" "o" "r") (run_calls fingerprint sample_calls sample_state)
      run_calls-IsWellFormed_example
