-- ===== src/Service/Delivery.antt =====
-- v2_service.ts: a message that is repeated is not delivered again.
use remote_pi.Base.{
  ℕ, ◌+◌, ◌<◌, String, ◌≡◌, refl, inl, inr, true, false, some, [], ◌∷◌, Bool-cases,
}
use remote_pi.Base.Equality.{◌==◌, string_eq}
use remote_pi.Base.JsMap
use remote_pi.SessionState.Types.{IdempotencyRecord, is_valid_id, Status, Request}
use remote_pi.SessionState.Records.{begin}
use remote_pi.SessionState.Preserve.{IsWellFormed}
use remote_pi.SessionState.Idempotency.{begin_found}
use remote_pi.Service.Types.{Payload, UserMessage, Delivery, Service, invalid_message}
use remote_pi.Service.Records.{request_key}
use remote_pi.Service.Handlers.{handle_user_message, error, replay_status}

-- The service and its session state have the same generation, and the state is well formed.
pub record IsConsistent (v : Service) : Type 0 where
  pub well_formed : IsWellFormed v.state
  pub same_generation : v.state.generation ≡ v.generation

replay_status_effects :
    (clock : ℕ → ℕ) (m : UserMessage) (r : IdempotencyRecord) (v : Service) (s : Status)
    → (replay_status clock m r v s).2 ≡ []
unfolding replay_status
replay_status_effects clock m r v Status.received = refl
replay_status_effects clock m r v _ = refl

-- Take a consistent service, valid ids, and a message whose request id has a record that is live:
-- `handleUserMessage` calls no callback, whatever the status of the record and whatever
-- `onUserMessage` would answer, and it answers a payload with another fingerprint with the error
-- `invalid_message`.
pub repeated_message_not_delivered :
    (fingerprint : Payload → String) (clock : ℕ → ℕ) (m : UserMessage) (answer : Delivery)
    (v : Service) (r : IdempotencyRecord)
    → IsConsistent v
    → is_valid_id v.sender_ref ≡ true
    → is_valid_id m.client_request_id ≡ true
    → JsMap.get v.state.records (request_key v m.client_request_id) ≡ some r
    → clock 1 < r.touched_at + v.state.ttl_ms
    → let handled = handle_user_message fingerprint clock m answer v in
      (handled.2 ≡ [])
      × ((r.fingerprint == fingerprint m.payload) ≡ false
          → handled.1 ≡ some (error m.head invalid_message ∷ []))
unfolding handle_user_message
repeated_message_not_delivered fingerprint clock m answer v r c valid_sender valid_id found live =
    let request : Request Payload = record {
      sender_ref = v.sender_ref;
      client_request_id = m.client_request_id;
      payload = m.payload;
    } in
    let request_found =
      begin_found fingerprint (clock 1) (clock 2) request v.state r c.well_formed
        (valid_sender, valid_id) (simp (c.same_generation) found) live in
    rw request_found (elim (Bool-cases (r.fingerprint == fingerprint m.payload)) [
      | inl same ↦ rw same (
        replay_status_effects (λ k. clock (3 + k)) m (record r { touched_at = clock 2 })
            (record v { state = (begin fingerprint (clock 1) (clock 2) request v.state).0 })
            r.status,
        λ different. cc,
      )
      | inr different ↦ rw different (refl, λ _. refl)
    ])
