-- ===== src/SessionState/Records.antt =====
-- session_state.ts: the operations on idempotency records.
use remote_pi.Base.{
  ℕ, ◌+◌, String, Bool, not, Option, none, some, List, [], ◌∷◌, ltb, length, filter, if◌then◌else◌,
}
use remote_pi.Base.Equality.{◌==◌, string_eq}
use remote_pi.Base.JsMap
use remote_pi.Base.JsMap.{JsMap, values}
use remote_pi.Base.JsMap.Deleting.{delete_where}
use remote_pi.SessionState.Types.{
  Status, received, unknown_delivery, ChannelState, IdempotencyRecord, Request, BeginResult, fresh,
  replay, conflict, State, sender_ref_invalid, client_request_id_invalid, Result, ok, err,
  record_key, is_valid_id,
}

-- `now - record.touchedAt >= this.ttlMs` fails; a clock that went back gives a negative difference.
unfoldable pub is_live : ℕ → ℕ → IdempotencyRecord → Bool
is_live now ttl_ms r = ltb now (r.touched_at + ttl_ms)

-- A loop that deletes entries of the map that it walks is a filter on the entries.
unfoldable pub drop_expired :
    ℕ → ℕ → JsMap String IdempotencyRecord → JsMap String IdempotencyRecord
drop_expired now ttl_ms m = filter (λ e. is_live now ttl_ms e.1) m

-- The first key of a map is its oldest.
unfoldable pub prune_capacity {ℓ} : {A : Type ℓ} → ℕ → List A → List A
prune_capacity max_entries [] = []
prune_capacity max_entries (e ∷ m) =
    if ltb max_entries (length (e ∷ m)) then prune_capacity max_entries m else e ∷ m

unfoldable pub prune : ℕ → State → State
prune now s = record s {
  records = prune_capacity s.max_entries (drop_expired now s.ttl_ms s.records);
}

unfoldable pub remove_owner : String → State → State
remove_owner sender_ref s = record s {
  channels = delete_where (λ (c : ChannelState). c.sender_ref == sender_ref) s.channels;
  records = delete_where (λ (r : IdempotencyRecord). r.sender_ref == sender_ref) s.records;
}

-- `records.delete(key)` and then `records.set(key, record)`: the record becomes the newest.
unfoldable pub store_last : String → IdempotencyRecord → State → State
store_last key r s = record s { records = JsMap.set (JsMap.delete s.records key) key r }

-- `begin` after the assertions, with the record that the key has.
unfoldable pub find_or_insert :
    ℕ → String → String → String → String → State → Option IdempotencyRecord → State × BeginResult
find_or_insert later key fingerprint sender_ref client_request_id s (some old) =
    let existing : IdempotencyRecord = record old { touched_at = later } in
    (
      store_last key existing s,
      if old.fingerprint == fingerprint then replay existing else conflict existing,
    )
find_or_insert later key fingerprint sender_ref client_request_id s none =
    let r : IdempotencyRecord = record {
      key = key;
      generation = s.generation;
      sender_ref = sender_ref;
      client_request_id = client_request_id;
      fingerprint = fingerprint;
      status = received;
      message_id = none;
      group_id = none;
      touched_at = later;
    } in
    (record s { records = prune_capacity s.max_entries (JsMap.set s.records key r) }, fresh r)

module _ {P : Type 0} (fingerprint_payload : P → String) where
  unfoldable pub begin : ℕ → ℕ → Request P → State → State × Result BeginResult
  begin now later request s₀ =
      let s = prune now s₀ in
      if not (is_valid_id request.sender_ref)
      then (s, err sender_ref_invalid)
      else if not (is_valid_id request.client_request_id)
      then (s, err client_request_id_invalid)
      else let key = record_key s.generation request.sender_ref request.client_request_id in
        let (s', result) =
          find_or_insert later key (fingerprint_payload request.payload) request.sender_ref
            request.client_request_id s (JsMap.get s.records key) in
        (s', ok result)

-- `details.x` overwrites only where it is given.
abbrev given_or : Option String → Option String → Option String
given_or none old = old
given_or (some new) old = some new

unfoldable pub update_record :
    ℕ → Status → Option String → Option String → IdempotencyRecord → IdempotencyRecord
update_record later status message_id group_id r = record r {
  status = status;
  message_id = given_or message_id r.message_id;
  group_id = given_or group_id r.group_id;
  touched_at = later;
}

unfoldable pub update_found :
    ℕ
    → String
    → Status
    → Option String
    → Option String
    → State
    → Option IdempotencyRecord
    → State × Option IdempotencyRecord
unfolding update_record store_last
update_found later key status message_id group_id s none = (s, none)
update_found later key status message_id group_id s (some r) =
    let r' = update_record later status message_id group_id r in (store_last key r' s, some r')

unfoldable pub update :
    ℕ
    → ℕ
    → String
    → Status
    → Option String
    → Option String
    → State
    → State × Option IdempotencyRecord
unfolding update_found
update now later key status message_id group_id s₀ =
    let s = prune now s₀ in
    update_found later key status message_id group_id s (JsMap.get s.records key)

unfoldable pub remember_unknown_delivery : ℕ → ℕ → String → State → State × Option IdempotencyRecord
remember_unknown_delivery now later key s = update now later key unknown_delivery none none s

unfoldable pub get_record : ℕ → String → State → State × Option IdempotencyRecord
get_record now key s₀ = let s = prune now s₀ in (s, JsMap.get s.records key)

unfoldable pub forget : String → State → State × Bool
forget key s = (record s { records = JsMap.delete s.records key }, JsMap.has s.records key)

unfoldable pub snapshot : ℕ → State → State × List ChannelState × List IdempotencyRecord
snapshot now s₀ = let s = prune now s₀ in (s, values s.channels, values s.records)
