-- ===== src/Transfer/Types.antt =====
-- timeline-transfer.ts: the data, and the decoders that it is given.
use remote_pi.Base.{ℕ, String, Bool, ◌&&◌, Option, List}
use remote_pi.Base.Equality.{◌==◌, nat_eq, string_eq}
use remote_pi.Base.JsMap.{JsMap}

abbrev pub Bytes : Type 0
Bytes = List ℕ

pub data EventKind : Type 0 where
  user assistant tool compaction branch_summary custom provider_error : EventKind

pub data EventStatus : Type 0 where
  committed complete_status error_status interrupted no_status : EventStatus

-- `body` stands for the rest of the event. Only a system event may lack `group_id`.
pub record TimelineEvent : Type 0 where
  pub event_id : String
  pub session_id : String
  pub history_generation : String
  pub kind : EventKind
  pub group_id : Option String
  pub timestamp : ℕ
  pub status : EventStatus
  pub body : String

pub record TimelineTransferScope : Type 0 where
  pub session_id : String
  pub history_generation : String

pub record HistoryFragment : Type 0 where
  pub event_id : String
  pub index : ℕ
  pub data_base64 : String
  pub final : Bool

pub record TimelineEventFragmentFrame : Type 0 where
  pub session_id : String
  pub history_generation : String
  pub fragment : HistoryFragment

pub record HistoryChunkFrame : Type 0 where
  pub in_reply_to : String
  pub session_id : String
  pub history_generation : String
  pub snapshot_head : String
  pub chunk_index : ℕ
  pub final_chunk : Bool
  pub eos : Bool
  pub next_before : Option String
  pub events : List TimelineEvent
  pub fragments : List HistoryFragment

pub data TransferResult : Type 0 where
  pending : TransferResult
  complete : TimelineEvent → TransferResult
  discarded ignored : String → TransferResult

pub record FragmentEntry : Type 0 where
  pub bytes : Bytes
  pub final : Bool

pub record FragmentState : Type 0 where
  pub entries : JsMap ℕ FragmentEntry
  pub final_index : Option ℕ
  pub decoded_bytes : ℕ

abbrev pub FragmentStates : Type 0
FragmentStates = JsMap String FragmentState

abbrev pub max_array_items : ℕ
max_array_items = 4096

abbrev pub max_window_bytes : ℕ
max_window_bytes = 33554432

-- protocol-v2/codec.ts, encoding.ts and the schemas.
pub record Codec : Type 0 where
  -- `timelineEventFragmentFrameSchema.safeParse(frame).success`
  pub is_fragment_frame : TimelineEventFragmentFrame → Bool
  -- `validateFragmentSizeV2`, then `decodeBase64` of the data.
  pub decode_fragment : HistoryFragment → Option Bytes
  -- `parseTimelineEventV2(decodeUtf8(bytes))`
  pub parse_encoded_event : Bytes → Option TimelineEvent
  -- `sessionHistoryChunkFrameSchema.safeParse(chunk).success`
  pub is_history_chunk : HistoryChunkFrame → Bool
  -- `validateHistoryChunkSizeV2` does not throw.
  pub is_chunk_size : HistoryChunkFrame → Bool
  -- `parseTimelineEventV2` of a decoded value.
  pub parse_event : TimelineEvent → Option TimelineEvent
  -- `getUtf8ByteLengthV2`
  pub utf8_length : TimelineEvent → ℕ
  -- `validateWindowSizeV2` does not throw.
  pub is_window_size : List TimelineEvent → Bool

abbrev pub bytes_equal : Bytes → Bytes → Bool
bytes_equal List.[] List.[] = Bool.true
bytes_equal (List.◌∷◌ x xs) (List.◌∷◌ y ys) = x == y && bytes_equal xs ys
bytes_equal _ _ = Bool.false

abbrev pub in_scope : TimelineTransferScope → String → String → Bool
in_scope scope session_id history_generation =
    session_id == scope.session_id && history_generation == scope.history_generation
