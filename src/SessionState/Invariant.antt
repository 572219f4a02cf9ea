-- ===== src/SessionState/Invariant.antt =====
-- session_state.ts: every call, whether it returns or throws, keeps a session state well formed.
use remote_pi.Base.{
  ℕ, String, ◌≡◌, refl, inl, inr, Option, none, some, List, [], ◌∷◌, arith, Bool-cases,
}
use remote_pi.Base.Equality.{◌==◌, string_eq}
use remote_pi.Base.JsMap
use remote_pi.Base.JsMap.{All-delete, length-delete-le}
use remote_pi.Base.JsMap.Unique.{UniqueKeys-delete, All-get}
use remote_pi.Base.JsMap.Deleting.{
  length-delete_visited, UniqueKeys-delete_visited, All-delete_visited,
}
use remote_pi.SessionState.Types.{
  ChannelState, Options, State, ok, create, channel_key, set_generation, get_channel, hello, touch,
  touch_found, remove_channel, is_valid_id,
}
use remote_pi.SessionState.Records.{
  remove_owner, remember_unknown_delivery, get_record, forget, snapshot,
}
use remote_pi.SessionState.Calls.{
  Call, set_generation_call, hello_call, touch_call, remove_channel_call, remove_owner_call,
  begin_call, update_call, remember_unknown_delivery_call, get_record_call, forget_call,
  snapshot_call, run_call, run_calls,
}
use remote_pi.SessionState.Preserve.{
  IsWellFormed, IsKeyed, IsChannel, prune-IsWellFormed, begin-IsWellFormed, update-IsWellFormed,
  set_channel-IsWellFormed,
}

set_generation-IsWellFormed :
    (generation : String) (s : State)
    → IsWellFormed s
    → IsWellFormed (set_generation generation s).0
unfolding set_generation
set_generation-IsWellFormed generation s h = elim (Bool-cases (generation == "")) [
  | inl bad ↦ rw bad h
  | inr good ↦ rw good (elim (Bool-cases (generation == s.generation)) [
    | inl same ↦ rw same h
    | inr other ↦ rw other (record {
      room = h.room;
      lasts = h.lasts;
      bounded = omega (arith, h.room);
      unique = tt;
      keyed = tt;
      unique_channels = h.unique_channels;
      channels_keyed = h.channels_keyed;
    })
  ])
]

hello-IsWellFormed :
    (now : ℕ) (sender_ref channel_id : String) (s : State)
    → IsWellFormed s
    → IsWellFormed (hello now sender_ref channel_id s).0
unfolding hello
hello-IsWellFormed now sender_ref channel_id s h = elim (Bool-cases (is_valid_id sender_ref)) [
  | inr bad ↦ rw bad h
  | inl good ↦ rw good (elim (Bool-cases (is_valid_id channel_id)) [
    | inr bad ↦ rw bad h
    | inl good' ↦ rw good' (set_channel-IsWellFormed _ s refl h)
  ])
]

touch_found-IsWellFormed :
    (now : ℕ) (sender_ref channel_id : String) (s : State) (o : Option ChannelState)
    → IsWellFormed s
    → JsMap.get s.channels (channel_key sender_ref channel_id) ≡ o
    → IsWellFormed (touch_found now sender_ref channel_id s o).0
unfolding touch_found
touch_found-IsWellFormed now sender_ref channel_id s none h found = h
touch_found-IsWellFormed now sender_ref channel_id s (some c) h found =
    let k = All-get IsChannel s.channels _ c h.channels_keyed found in
    rw k.0 (set_channel-IsWellFormed (record c { last_seen = now }) s k.1 h)

touch-IsWellFormed :
    (now : ℕ) (sender_ref channel_id : String) (s : State)
    → IsWellFormed s
    → IsWellFormed (touch now sender_ref channel_id s).0
unfolding touch get_channel
touch-IsWellFormed now sender_ref channel_id s h =
    touch_found-IsWellFormed now sender_ref channel_id s _ h refl

remove_channel-IsWellFormed :
    (sender_ref channel_id : String) (s : State)
    → IsWellFormed s
    → IsWellFormed (remove_channel sender_ref channel_id s)
unfolding remove_channel
remove_channel-IsWellFormed sender_ref channel_id s h = record {
  room = h.room;
  lasts = h.lasts;
  bounded = h.bounded;
  unique = h.unique;
  keyed = h.keyed;
  unique_channels = UniqueKeys-delete s.channels _ h.unique_channels;
  channels_keyed = All-delete IsChannel s.channels _ h.channels_keyed;
}

pub remove_owner-IsWellFormed :
    (sender_ref : String) (s : State) → IsWellFormed s → IsWellFormed (remove_owner sender_ref s)
unfolding remove_owner
remove_owner-IsWellFormed sender_ref s h = record {
  room = h.room;
  lasts = h.lasts;
  bounded = omega (arith, h.bounded, length-delete_visited _ s.records s.records);
  unique = UniqueKeys-delete_visited _ s.records s.records h.unique;
  keyed = All-delete_visited (IsKeyed s.generation) _ s.records s.records h.keyed;
  unique_channels = UniqueKeys-delete_visited _ s.channels s.channels h.unique_channels;
  channels_keyed = All-delete_visited IsChannel _ s.channels s.channels h.channels_keyed;
}

forget-IsWellFormed : (key : String) (s : State) → IsWellFormed s → IsWellFormed (forget key s).0
unfolding forget
forget-IsWellFormed key s h = record {
  room = h.room;
  lasts = h.lasts;
  bounded = omega (arith, h.bounded, length-delete-le s.records key);
  unique = UniqueKeys-delete s.records key h.unique;
  keyed = All-delete (IsKeyed s.generation) s.records key h.keyed;
  unique_channels = h.unique_channels;
  channels_keyed = h.channels_keyed;
}

module _ {P : Type 0} (fingerprint_payload : P → String) where
  pub run_call-IsWellFormed :
      (c : Call P) (s : State) → IsWellFormed s → IsWellFormed (run_call fingerprint_payload c s)
  unfolding run_call remember_unknown_delivery get_record snapshot
  run_call-IsWellFormed (set_generation_call generation) s h =
      set_generation-IsWellFormed generation s h
  run_call-IsWellFormed (hello_call now sender_ref channel_id) s h =
      hello-IsWellFormed now sender_ref channel_id s h
  run_call-IsWellFormed (touch_call now sender_ref channel_id) s h =
      touch-IsWellFormed now sender_ref channel_id s h
  run_call-IsWellFormed (remove_channel_call sender_ref channel_id) s h =
      remove_channel-IsWellFormed sender_ref channel_id s h
  run_call-IsWellFormed (remove_owner_call sender_ref) s h =
      remove_owner-IsWellFormed sender_ref s h
  run_call-IsWellFormed (begin_call now later request) s h =
      begin-IsWellFormed fingerprint_payload now later request s h
  run_call-IsWellFormed (update_call now later key status message_id group_id) s h =
      update-IsWellFormed now later key status message_id group_id s h
  run_call-IsWellFormed (remember_unknown_delivery_call now later key) s h =
      update-IsWellFormed now later key _ none none s h
  run_call-IsWellFormed (get_record_call now key) s h = prune-IsWellFormed now s h
  run_call-IsWellFormed (forget_call key) s h = forget-IsWellFormed key s h
  run_call-IsWellFormed (snapshot_call now) s h = prune-IsWellFormed now s h

  run_calls_from-IsWellFormed :
      (calls : List (Call P)) (s : State)
      → IsWellFormed s
      → IsWellFormed (run_calls fingerprint_payload calls s)
  unfolding run_calls
  run_calls_from-IsWellFormed [] s h = h
  run_calls_from-IsWellFormed (c ∷ calls) s h =
      run_calls_from-IsWellFormed calls _ (run_call-IsWellFormed c s h)

  create-IsWellFormed : (o : Options) (s : State) → create o ≡ ok s → IsWellFormed s
  unfolding create
  create-IsWellFormed o s made = ground arith

  -- Whatever calls follow the constructor, in any order and at any times, and whether each returns
  -- or throws: the records are never more than `maxEntries`, no key stands twice, each record
  -- stands under the key that its generation, sender and request make and is of the current
  -- generation, and each channel stands under its own key and is ready.
  pub run_calls-IsWellFormed :
      (o : Options) (s : State) (calls : List (Call P))
      → create o ≡ ok s
      → IsWellFormed (run_calls fingerprint_payload calls s)
  run_calls-IsWellFormed o s calls made =
      run_calls_from-IsWellFormed calls s (create-IsWellFormed o s made)
