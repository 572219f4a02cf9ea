-- ===== src/SessionState/Types.antt =====
-- session_state.ts: the data, the constructor, the keys and the operations on channels.
use Prim.Native.Char.{code}
use Prim.Native.String.{◌++◌ as ◌⧺◌}
use remote_pi.Base.{
  ℕ, ◌+◌, max, String, Bool, true, not, ◌&&◌, Option, none, some, [], leb, if◌then◌else◌,
}
use remote_pi.Base.Equality.{◌==◌, string_eq}
use remote_pi.Base.JsMap
use remote_pi.Base.JsMap.{JsMap}

pub data Status : Type 0 where
  received queued accepted committed unknown_delivery : Status

pub record ChannelState : Type 0 where
  pub sender_ref : String
  pub channel_id : String
  pub ready : Bool
  pub last_seen : ℕ

pub record IdempotencyRecord : Type 0 where
  pub key : String
  pub generation : String
  pub sender_ref : String
  pub client_request_id : String
  pub fingerprint : String
  pub status : Status
  pub message_id : Option String
  pub group_id : Option String
  pub touched_at : ℕ

pub record Options : Type 0 where
  pub generation : String
  pub max_entries : Option ℕ
  pub ttl_ms : Option ℕ

pub record Request (P : Type 0) : Type 0 where
  pub sender_ref : String
  pub client_request_id : String
  pub payload : P

-- `new` is `fresh`.
pub data BeginResult : Type 0 where
  fresh replay conflict : IdempotencyRecord → BeginResult

pub record State : Type 0 where
  pub generation : String
  pub max_entries : ℕ
  pub ttl_ms : ℕ
  pub channels : JsMap String ChannelState
  pub records : JsMap String IdempotencyRecord

pub data Throw : Type 0 where
  generation_required sender_ref_invalid channel_id_invalid client_request_id_invalid : Throw

pub data Result {ℓ} (A : Type ℓ) : Type ℓ where
  ok : A → Result A
  err : Throw → Result A

-- `options.x ?? fallback`
abbrev or_else : Option ℕ → ℕ → ℕ
or_else none fallback = fallback
or_else (some n) fallback = n

-- The constructor; `Math.floor` is the identity on these numbers.
unfoldable pub create : Options → Result State
create o =
    if o.generation == ""
    then err generation_required
    else ok (record {
      generation = o.generation;
      max_entries = max 1 (or_else o.max_entries 512);
      ttl_ms = max 1 (or_else o.ttl_ms 600000);
      channels = [];
      records = [];
    })

unfoldable pub record_key : String → String → String → String
record_key generation sender_ref client_request_id =
    generation ⧺ ("\0" ⧺ (sender_ref ⧺ ("\0" ⧺ client_request_id)))

unfoldable pub channel_key : String → String → String
channel_key sender_ref channel_id = sender_ref ⧺ ("\0" ⧺ channel_id)

-- `value.length`, which counts UTF-16 units.
utf16_length : String → ℕ
utf16_length String.[] = 0
utf16_length (String.◌∷◌ c s) = (if leb 0x10000 (code c) then 2 else 1) + utf16_length s

-- The test of `assertId`, which throws unless it holds.
unfoldable pub is_valid_id : String → Bool
unfolding utf16_length
is_valid_id value = not (value == "") && leb (utf16_length value) 256

unfoldable pub set_generation : String → State → State × Result (Unit {0})
set_generation generation s =
    if generation == ""
    then (s, err generation_required)
    else if generation == s.generation
    then (s, ok tt)
    else (record s { generation = generation; records = [] }, ok tt)

unfoldable pub get_channel : String → String → State → Option ChannelState
get_channel sender_ref channel_id s = JsMap.get s.channels (channel_key sender_ref channel_id)

unfoldable pub hello : ℕ → String → String → State → State × Result ChannelState
hello now sender_ref channel_id s =
    if not (is_valid_id sender_ref)
    then (s, err sender_ref_invalid)
    else if not (is_valid_id channel_id)
    then (s, err channel_id_invalid)
    else let channel : ChannelState = record {
      sender_ref = sender_ref;
      channel_id = channel_id;
      ready = true;
      last_seen = now;
    } in
      (
        record s { channels = JsMap.set s.channels (channel_key sender_ref channel_id) channel },
        ok channel,
      )

unfoldable pub touch_found :
    ℕ → String → String → State → Option ChannelState → State × Option ChannelState
touch_found now sender_ref channel_id s none = (s, none)
touch_found now sender_ref channel_id s (some current) =
    let channel : ChannelState = record current { last_seen = now } in
    (
      record s { channels = JsMap.set s.channels (channel_key sender_ref channel_id) channel },
      some channel,
    )

unfoldable pub touch : ℕ → String → String → State → State × Option ChannelState
unfolding touch_found
touch now sender_ref channel_id s =
    touch_found now sender_ref channel_id s (get_channel sender_ref channel_id s)

unfoldable pub remove_channel : String → String → State → State
remove_channel sender_ref channel_id s = record s {
  channels = JsMap.delete s.channels (channel_key sender_ref channel_id);
}
