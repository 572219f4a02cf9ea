-- ===== src/SessionState/Eviction.antt =====
-- session_state.ts: which records an insertion evicts.
use remote_pi.Base.{
  ℕ, ◌≤◌, String, ◌≡◌, refl, ap, ◌∙◌, inl, inr, Option, none, some, List, [], ◌∷◌, ◌++◌, arith, ltb,
  length, length-append, length-filter-le, if◌then◌else◌, Bool-cases,
}
use remote_pi.Base.Equality.{string_eq}
use remote_pi.Base.JsMap.{JsMap, get, set-append}
use remote_pi.SessionState.Types.{
  IdempotencyRecord, BeginResult, fresh, Request, State, ok, record_key, is_valid_id,
}
use remote_pi.SessionState.Records.{drop_expired, prune_capacity, prune, find_or_insert, begin}
use remote_pi.SessionState.Preserve.{IsWellFormed, prune_capacity_fits}
use remote_pi.SessionState.Idempotency.{record_of, records-prune}

abbrev pub drop_first {ℓ} : {A : Type ℓ} → List A → List A
drop_first [] = []
drop_first (x ∷ xs) = xs

prune_capacity-append :
    {A : Type 0} (n : ℕ) (m : List A) (x : A)
    → length m ≤ n
    → 1 ≤ n
    → prune_capacity n (m ++ x ∷ []) ≡ (if ltb (length m) n then m else drop_first m) ++ x ∷ []
unfolding prune_capacity
prune_capacity-append n [] x h room = ground arith
prune_capacity-append n (e ∷ m) x h room =
    ground (arith, length-append m (x ∷ []), prune_capacity_fits n (m ++ x ∷ []))

length-drop_expired :
    (now ttl_ms : ℕ) (m : JsMap String IdempotencyRecord)
    → length (drop_expired now ttl_ms m) ≤ length m
unfolding drop_expired
length-drop_expired now ttl_ms m = length-filter-le _ m

find_or_insert-fresh :
    (later : ℕ) (key fingerprint sender_ref client_request_id : String) (s : State)
    (o : Option IdempotencyRecord) (r : IdempotencyRecord)
    → get s.records key ≡ o
    → (find_or_insert later key fingerprint sender_ref client_request_id s o).1 ≡ fresh r
    → (find_or_insert later key fingerprint sender_ref client_request_id s o).0.records
      ≡ prune_capacity s.max_entries (s.records ++ (key, r) ∷ [])
unfolding find_or_insert
find_or_insert-fresh later key fingerprint sender_ref client_request_id s none r absent e =
    rw (set-append s.records key _ absent)
      (ap (λ x. prune_capacity s.max_entries (s.records ++ (key, record_of x) ∷ [])) e)
find_or_insert-fresh later key fingerprint sender_ref client_request_id s (some old) r found e =
    absurd (ground arith)

ok-eq_fresh : {b : BeginResult} {r : IdempotencyRecord} → ok b ≡ ok (fresh r) → b ≡ fresh r
ok-eq_fresh e = cc

module _ {P : Type 0} (fingerprint_payload : P → String) where
  -- Where `begin` inserts in a well-formed state, the records are the live ones in their old order,
  -- with the new one last; the first of the live ones is dropped, exactly if there were `maxEntries`
  -- of them.
  pub begin-fresh_records :
      (now later : ℕ) (request : Request P) (s : State) (r : IdempotencyRecord)
      → IsWellFormed s
      → (begin fingerprint_payload now later request s).1 ≡ ok (fresh r)
      → let live = drop_expired now s.ttl_ms s.records in
        (begin fingerprint_payload now later request s).0.records
        ≡ (if ltb (length live) s.max_entries then live else drop_first live)
          ++ (record_key s.generation request.sender_ref request.client_request_id, r) ∷ []
  unfolding begin prune
  begin-fresh_records now later request s r h inserted =
      elim (Bool-cases (is_valid_id request.sender_ref)) [
        | inr bad ↦ cc (rw bad at inserted)
        | inl good ↦ elim (Bool-cases (is_valid_id request.client_request_id)) [
          | inr bad ↦ cc (rw (good, bad) at inserted)
          | inl good' ↦
              rw (good, good')
                (find_or_insert-fresh later
                    (record_key s.generation request.sender_ref request.client_request_id)
                    (fingerprint_payload request.payload) request.sender_ref
                    request.client_request_id (prune now s) _ r refl
                    (ok-eq_fresh (rw (good, good') at inserted))
                  ∙ rw (records-prune now s h) (
                      prune_capacity-append s.max_entries (drop_expired now s.ttl_ms s.records) _
                        (omega (arith, h.bounded, length-drop_expired now s.ttl_ms s.records))
                        h.room))
        ]
      ]
