-- ===== src/SessionState/Idempotency.antt =====
-- session_state.ts: what a client may rely on when it repeats a request, and what is forgotten.
use remote_pi.Base.{
  ℕ, ◌+◌, ◌≤◌, ◌<◌, String, ◌≡◌, refl, true, Option, none, some, [], ◌∷◌, ◌++◌, arith, ltb,
  length-filter-le, if◌then◌else◌,
}
use remote_pi.Base.Equality.{◌==◌, string_eq}
use remote_pi.Base.JsMap.{JsMap, get, delete, get-set, get-append, set-append}
use remote_pi.Base.JsMap.Unique.{get-filter, keep_if}
use remote_pi.SessionState.Types.{
  IdempotencyRecord, BeginResult, fresh, replay, conflict, Request, State, ok, record_key,
  is_valid_id,
}
use remote_pi.SessionState.Records.{
  is_live, drop_expired, prune_capacity, prune, find_or_insert, store_last, begin, get_record,
}
use remote_pi.SessionState.Preserve.{
  IsWellFormed, prune-IsWellFormed, prune_capacity_fits, begin-IsWellFormed,
}

-- In a well-formed state pruning drops the expired records and no other.
pub records-prune :
    (now : ℕ) (s : State)
    → IsWellFormed s
    → (prune now s).records ≡ drop_expired now s.ttl_ms s.records
unfolding prune drop_expired
records-prune now s h =
    prune_capacity_fits s.max_entries _ (omega (arith, h.bounded, length-filter-le _ s.records))

-- In a well-formed state a record is read exactly while less than `ttlMs` has passed since it was
-- last touched.
pub get_record_exact :
    (now : ℕ) (key : String) (s : State)
    → IsWellFormed s
    → (get_record now key s).1
      ≡ keep_if (λ e. ltb now (e.1.touched_at + s.ttl_ms)) key (get s.records key)
unfolding get_record drop_expired is_live
get_record_exact now key s h = rw (records-prune now s h) (get-filter _ s.records key h.unique)

-- The record that is written last survives the eviction.
get-prune_capacity_last :
    {V : Type 0} (n : ℕ) (m : JsMap String V) (k : String) (v : V)
    → get m k ≡ none
    → 1 ≤ n
    → get (prune_capacity n (m ++ (k, v) ∷ [])) k ≡ some v
unfolding prune_capacity get
get-prune_capacity_last n [] k v h room = ground (arith, string_eq.same_iff k k)
get-prune_capacity_last n ((j, w) ∷ m) k v h room =
    ground (arith, get-prune_capacity_last n m k v, get-append m k k v, string_eq.same_iff k k)

abbrev pub record_of : BeginResult → IdempotencyRecord
record_of (fresh r) = r
record_of (replay r) = r
record_of (conflict r) = r

-- The record of `b` is what the state holds under `key`, touched at `later`.
abbrev Stores : String → ℕ → State → BeginResult → Type 0
Stores key later s b = (get s.records key ≡ some (record_of b)) × ((record_of b).touched_at ≡ later)

find_or_insert-Stores :
    (later : ℕ) (key fingerprint sender_ref client_request_id : String) (s : State)
    (o : Option IdempotencyRecord)
    → 1 ≤ s.max_entries
    → get s.records key ≡ o
    → let (s', b) = find_or_insert later key fingerprint sender_ref client_request_id s o in
      Stores key later s' b
unfolding find_or_insert store_last
find_or_insert-Stores later key fingerprint sender_ref client_request_id s none room absent = (
  rw (set-append s.records key _ absent)
      (get-prune_capacity_last s.max_entries s.records key _ absent room),
  refl,
)
find_or_insert-Stores later key fingerprint sender_ref client_request_id s (some old) room found = (
  ground (
    arith,
    get-set (delete s.records key) key key (record old { touched_at = later }),
    string_eq.same_iff key key,
    string_eq.same_iff old.fingerprint fingerprint,
  ),
  ground arith,
)

module _ {P : Type 0} (fingerprint_payload : P → String) where
  abbrev pub key_of : Request P → State → String
  key_of request s = record_key s.generation request.sender_ref request.client_request_id

  abbrev pub HasValidIds : Request P → Type 0
  HasValidIds request =
      (is_valid_id request.sender_ref ≡ true) × (is_valid_id request.client_request_id ≡ true)

  -- Every `begin` with valid ids returns a result, and stores its record.
  begin-Stores :
      (now later : ℕ) (request : Request P) (s : State)
      → IsWellFormed s
      → HasValidIds request
      → (b : BeginResult) × ((begin fingerprint_payload now later request s).1 ≡ ok b)
        × Stores (key_of request s) later (begin fingerprint_payload now later request s).0 b
  unfolding begin prune
  begin-Stores now later request s h valid =
      let step =
        find_or_insert-Stores later (key_of request s) (fingerprint_payload request.payload)
          request.sender_ref request.client_request_id (prune now s) _
          (prune-IsWellFormed now s h).room refl in
      rw (valid.0, valid.1) (_, refl, step)

  -- A `begin` that finds a live record of its key compares fingerprints.
  pub begin_found :
      (now later : ℕ) (request : Request P) (s : State) (r : IdempotencyRecord)
      → IsWellFormed s
      → HasValidIds request
      → get s.records (key_of request s) ≡ some r
      → now < r.touched_at + s.ttl_ms
      → (begin fingerprint_payload now later request s).1
        ≡ ok (
            if r.fingerprint == fingerprint_payload request.payload
            then replay (record r { touched_at = later })
            else conflict (record r { touched_at = later }))
  unfolding begin find_or_insert drop_expired prune
  begin_found now later request s r h valid found live =
      rw (valid.0, valid.1)
        (rw (records-prune now s h, get-filter _ s.records (key_of request s) h.unique, found)
          (unfold is_live in ground arith))

  begin_settings :
      (now later : ℕ) (request : Request P) (s : State)
      → let s' = (begin fingerprint_payload now later request s).0 in
        (s'.generation ≡ s.generation) × (s'.ttl_ms ≡ s.ttl_ms)
  unfolding begin find_or_insert store_last prune
  begin_settings now later request s = ground arith

  -- Take any `begin` with valid ids on a well-formed state: it returns some `b`. A second `begin`
  -- of the same sender and request id, less than `ttlMs` after the first, inserts nothing: it
  -- returns `replay` where the payload's fingerprint is the one recorded and `conflict` where it is
  -- not, with the first one's record, touched now.
  pub begin-begin :
      (now later now' later' : ℕ) (request : Request P) (payload' : P) (s : State)
      → IsWellFormed s
      → HasValidIds request
      → now' < later + s.ttl_ms
      → let request' = record request { payload = payload' } in
        let s' = (begin fingerprint_payload now later request s).0 in
        (b : BeginResult) × ((begin fingerprint_payload now later request s).1 ≡ ok b)
        × ((begin fingerprint_payload now' later' request' s').1
            ≡ ok (
                if (record_of b).fingerprint == fingerprint_payload payload'
                then replay (record (record_of b) { touched_at = later' })
                else conflict (record (record_of b) { touched_at = later' })))
  begin-begin now later now' later' request payload' s h valid soon =
      let (b, returned, stores) = begin-Stores now later request s h valid in
      let s' = (begin fingerprint_payload now later request s).0 in
      let (same_generation, same_ttl) = begin_settings now later request s in
      (
        b,
        returned,
        begin_found now' later' (record request { payload = payload' }) s' (record_of b)
            (begin-IsWellFormed fingerprint_payload now later request s h) valid
            (rw same_generation stores.0) (omega (arith, same_ttl, stores.1)),
      )
