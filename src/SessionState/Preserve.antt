-- ===== src/SessionState/Preserve.antt =====
-- session_state.ts: what holds of a session state between two calls.
use remote_pi.Base.{
  ℕ, ◌≤◌, String, ◌≡◌, refl, inl, inr, true, Option, none, some, List, [], ◌∷◌, arith, ltb, length,
  All, Bool-cases,
}
use remote_pi.Base.Equality.{string_eq}
use remote_pi.Base.JsMap
use remote_pi.Base.JsMap.{
  JsMap, get, set, delete, All-set, All-delete, length-set, length-delete_found, get-delete,
}
use remote_pi.Base.JsMap.Unique.{
  UniqueKeys, UniqueKeys-set, UniqueKeys-delete, UniqueKeys-filter, All-get, All-filter,
}
use remote_pi.SessionState.Types.{
  Status, ChannelState, IdempotencyRecord, State, record_key, channel_key, is_valid_id, Request,
}
use remote_pi.SessionState.Records.{
  update_found, drop_expired, prune_capacity, prune, store_last, find_or_insert, begin, update,
}
use remote_pi.SessionState.Calls.{}

-- A record stands under its own key, which names the generation, the sender and the request.
abbrev pub IsKeyed : String → String × IdempotencyRecord → Type 0
IsKeyed generation e =
    (e.0 ≡ e.1.key)
    × (e.1.generation ≡ generation)
    × (e.0 ≡ record_key generation e.1.sender_ref e.1.client_request_id)

abbrev pub IsChannel : String × ChannelState → Type 0
IsChannel e = (e.0 ≡ channel_key e.1.sender_ref e.1.channel_id) × (e.1.ready ≡ true)

pub record IsWellFormed (s : State) : Type 0 where
  pub room : 1 ≤ s.max_entries
  pub lasts : 1 ≤ s.ttl_ms
  pub bounded : length s.records ≤ s.max_entries
  pub unique : UniqueKeys s.records
  pub keyed : All (IsKeyed s.generation) s.records
  pub unique_channels : UniqueKeys s.channels
  pub channels_keyed : All IsChannel s.channels

module _ {ℓ} {A : Type ℓ} where
  pub length-prune_capacity : (n : ℕ) (m : List A) → length (prune_capacity n m) ≤ n
  unfolding prune_capacity
  length-prune_capacity n [] = omega arith
  length-prune_capacity n (e ∷ m) = ground (arith, length-prune_capacity n m)

  -- A map within the limit is left as it is.
  pub prune_capacity_fits : (n : ℕ) (m : List A) → length m ≤ n → prune_capacity n m ≡ m
  unfolding prune_capacity
  prune_capacity_fits n [] h = refl
  prune_capacity_fits n (e ∷ m) h = ground arith

  All-prune_capacity {μ} :
      (P : A → Type μ) (n : ℕ) (m : List A) → All P m → All P (prune_capacity n m)
  unfolding prune_capacity
  All-prune_capacity P n [] h = tt
  All-prune_capacity P n (e ∷ m) h = elim (Bool-cases (ltb n (length (e ∷ m)))) [
    | inl over ↦ rw over (All-prune_capacity P n m h.1)
    | inr fits ↦ rw fits h
  ]

UniqueKeys-prune_capacity :
    {V : Type 0} (n : ℕ) (m : JsMap String V) → UniqueKeys m → UniqueKeys (prune_capacity n m)
unfolding prune_capacity
UniqueKeys-prune_capacity n [] h = tt
UniqueKeys-prune_capacity n (e ∷ m) h = elim (Bool-cases (ltb n (length (e ∷ m)))) [
  | inl over ↦ rw over (UniqueKeys-prune_capacity n m h.1)
  | inr fits ↦ rw fits h
]

pub prune-IsWellFormed : (now : ℕ) (s : State) → IsWellFormed s → IsWellFormed (prune now s)
unfolding prune drop_expired
prune-IsWellFormed now s h = record {
  room = h.room;
  lasts = h.lasts;
  bounded = length-prune_capacity s.max_entries _;
  unique = UniqueKeys-prune_capacity s.max_entries _ (UniqueKeys-filter _ s.records h.unique);
  keyed =
      All-prune_capacity (IsKeyed s.generation) s.max_entries _
        (All-filter (IsKeyed s.generation) _ s.records h.keyed);
  unique_channels = h.unique_channels;
  channels_keyed = h.channels_keyed;
}

-- Moving a record that is present to the end, changed in nothing that its key names.
store_last-IsWellFormed :
    (key : String) (old r : IdempotencyRecord) (s : State)
    → IsWellFormed s
    → get s.records key ≡ some old
    → (r.key ≡ old.key)
      × (r.generation ≡ old.generation)
      × (r.sender_ref ≡ old.sender_ref)
      × (r.client_request_id ≡ old.client_request_id)
    → IsWellFormed (store_last key r s)
unfolding store_last
store_last-IsWellFormed key old r s h found same = record {
  room = h.room;
  lasts = h.lasts;
  bounded = ground (
    arith,
    h.bounded,
    length-delete_found s.records key old found,
    length-set (delete s.records key) key r,
    get-delete s.records key key,
    string_eq.same_iff key key,
  );
  unique = UniqueKeys-set _ key r (UniqueKeys-delete s.records key h.unique);
  keyed =
      let k = All-get (IsKeyed s.generation) s.records key old h.keyed found in
      All-set (IsKeyed s.generation) (delete s.records key) key r
        (cc (same.0, k.0), cc (same.1, k.1), cc (same.2, same.3, k.2))
        (All-delete (IsKeyed s.generation) s.records key h.keyed);
  unique_channels = h.unique_channels;
  channels_keyed = h.channels_keyed;
}

find_or_insert-IsWellFormed :
    (later : ℕ) (fingerprint sender_ref client_request_id : String) (s : State)
    (o : Option IdempotencyRecord)
    → IsWellFormed s
    → get s.records (record_key s.generation sender_ref client_request_id) ≡ o
    → IsWellFormed
        (find_or_insert later
          (record_key s.generation sender_ref client_request_id)
          fingerprint
          sender_ref
          client_request_id
          s
          o).0
unfolding find_or_insert
find_or_insert-IsWellFormed later fingerprint sender_ref client_request_id s (some old) h found =
    store_last-IsWellFormed (record_key s.generation sender_ref client_request_id) old _ s h found
      (refl, refl, refl, refl)
find_or_insert-IsWellFormed later fingerprint sender_ref client_request_id s none h found = record {
  room = h.room;
  lasts = h.lasts;
  bounded = length-prune_capacity s.max_entries _;
  unique = UniqueKeys-prune_capacity s.max_entries _ (UniqueKeys-set s.records _ _ h.unique);
  keyed =
      All-prune_capacity (IsKeyed s.generation) s.max_entries _
        (All-set (IsKeyed s.generation) s.records _ _ (refl, refl, refl) h.keyed);
  unique_channels = h.unique_channels;
  channels_keyed = h.channels_keyed;
}

pub begin-IsWellFormed :
    {P : Type 0} (fingerprint_payload : P → String) (now later : ℕ) (request : Request P)
    (s : State)
    → IsWellFormed s
    → IsWellFormed (begin fingerprint_payload now later request s).0
unfolding begin
begin-IsWellFormed fingerprint_payload now later request s h =
    elim (Bool-cases (is_valid_id request.sender_ref)) [
      | inr bad ↦ rw bad (prune-IsWellFormed now s h)
      | inl good ↦ rw good (elim (Bool-cases (is_valid_id request.client_request_id)) [
        | inr bad ↦ rw bad (prune-IsWellFormed now s h)
        | inl good' ↦ rw good' (
            find_or_insert-IsWellFormed later (fingerprint_payload request.payload)
              request.sender_ref request.client_request_id (prune now s) _
              (prune-IsWellFormed now s h) refl)
      ])
    ]

update_found-IsWellFormed :
    (later : ℕ) (key : String) (status : Status) (message_id group_id : Option String) (s : State)
    (o : Option IdempotencyRecord)
    → IsWellFormed s
    → get s.records key ≡ o
    → IsWellFormed (update_found later key status message_id group_id s o).0
unfolding update_found
update_found-IsWellFormed later key status message_id group_id s none h found = h
update_found-IsWellFormed later key status message_id group_id s (some r) h found =
    store_last-IsWellFormed key r _ s h found (refl, refl, refl, refl)

pub update-IsWellFormed :
    (now later : ℕ) (key : String) (status : Status) (message_id group_id : Option String)
    (s : State)
    → IsWellFormed s
    → IsWellFormed (update now later key status message_id group_id s).0
unfolding update
update-IsWellFormed now later key status message_id group_id s h =
    update_found-IsWellFormed later key status message_id group_id (prune now s) _
      (prune-IsWellFormed now s h) refl

pub set_channel-IsWellFormed :
    (channel : ChannelState) (s : State)
    → channel.ready ≡ true
    → IsWellFormed s
    → IsWellFormed (record s {
      channels = JsMap.set s.channels (channel_key channel.sender_ref channel.channel_id) channel;
    })
set_channel-IsWellFormed channel s is_ready h = record {
  room = h.room;
  lasts = h.lasts;
  bounded = h.bounded;
  unique = h.unique;
  keyed = h.keyed;
  unique_channels = UniqueKeys-set s.channels _ channel h.unique_channels;
  channels_keyed = All-set IsChannel s.channels _ channel (refl, is_ready) h.channels_keyed;
}
