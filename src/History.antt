-- ===== src/History.antt =====
-- pi-extension/src/timeline/history.ts: the data of TimelineHistoryPager and what it reads of the host.
pub mod Window
pub mod Chunking
pub mod Sync
pub mod Kept
pub mod SingleUse
pub mod Packing
pub mod Filling
pub mod Frames
pub mod Selection
pub mod Paging
pub mod Following
use remote_pi.Base.{
  ℕ, zero, suc, String, Bool, true, false, not, ◌&&◌, ◌||◌, if◌then◌else◌, Option, none, some, List,
  [], ◌∷◌, map, take, length, any, is_some,
}
use remote_pi.Base.Equality.{◌==◌, string_eq, nat_eq}
use remote_pi.Base.JsMap.{JsMap}
use remote_pi.Transfer.Types.{TimelineEvent, HistoryChunkFrame, HistoryFragment}

-- The entries of a Pi session. A custom entry has its type and, where its data is an object with a
-- string under `event_id`, that string.
pub data EntryKind : Type 0 where
  message_entry other_entry : EntryKind
  custom_entry : String → Option String → EntryKind

pub record BranchEntry : Type 0 where
  pub id : String
  pub kind : EntryKind

-- What the `SessionManager` and the generation provider answer. `branch_at` is `getBranch(id)`.
pub record Session : Type 0 where
  pub session_id : String
  pub history_generation : String
  pub branch : List BranchEntry
  pub branch_at : String → List BranchEntry
  pub leaf_id : Option String

-- The host during one request: before and after `recoverFn` ran, and its events; `none` is a throw.
pub record Host : Type 0 where
  pub session : Session
  pub recovered : Option (List TimelineEvent)
  pub session_after : Session

pub record Request : Type 0 where
  pub request_id : String
  pub target_channel_id : String
  pub before : Option String
  pub limit : Option ℕ

pub record CursorState : Type 0 where
  pub session_id : String
  pub history_generation : String
  pub snapshot_head : String
  pub branch_entry_ids : List String
  pub position : ℕ
  pub used : Bool
  pub busy : Bool

pub record EventRecord : Type 0 where
  pub event : TimelineEvent
  pub position : ℕ
  pub order : ℕ
  pub bytes : ℕ

pub record GroupRecord : Type 0 where
  pub group_id : Option String
  pub first_position : ℕ
  pub records : List EventRecord
  pub bytes : ℕ

pub data HistoryItem : Type 0 where
  event_item : TimelineEvent → HistoryItem
  fragment_item : HistoryFragment → HistoryItem

pub record Payload : Type 0 where
  pub events : List TimelineEvent
  pub fragments : List HistoryFragment

pub data ErrorCode : Type 0 where
  invalid_cursor reset_required too_large internal_error : ErrorCode

pub data ResetReason : Type 0 where
  generation_changed branch_changed session_replaced invalid_cursor : ResetReason

pub data ServerFrame : Type 0 where
  session_history_chunk : String → HistoryChunkFrame → ServerFrame
  protocol_error : Request → ErrorCode → String → ServerFrame
  reset : String → String → String → ResetReason → ServerFrame

pub record Pager : Type 0 where
  pub cursors : JsMap String CursorState
  pub initial_busy : Bool

abbrev pub new_pager : Pager
new_pager = record { cursors = []; initial_busy = false }

-- A value, or the message of the error that was thrown.
pub data Attempt {ℓ} (A : Type ℓ) : Type ℓ where
  done : A → Attempt A
  thrown : String → Attempt A

infixl 30 ◌>>=◌
unfoldable pub ◌>>=◌ {ℓ κ} : {A : Type ℓ} {B : Type κ} → Attempt A → (A → Attempt B) → Attempt B
done a >>= f = f a
thrown message >>= f = thrown message

-- The schema, the sizes and the encoder. The messages are those of the errors that are thrown.
pub record Protocol : Type 0 where
  -- `TimelineEventSchema.safeParse`
  pub parse_event : TimelineEvent → Option TimelineEvent
  -- `getUtf8ByteLengthV2` of an event and of a frame.
  pub event_bytes : TimelineEvent → ℕ
  pub frame_bytes : String → HistoryChunkFrame → ℕ
  -- `new TextEncoder().encode(JSON.stringify(event))`
  pub encode : TimelineEvent → List ℕ
  pub to_base64 : List ℕ → String
  -- `encodeServerFrameV2` throws.
  pub encode_error : String → HistoryChunkFrame → Option String
  pub group_too_large : GroupRecord → String

abbrev pub max_groups_per_page : ℕ
max_groups_per_page = 5

abbrev pub max_window_decode_bytes : ℕ
max_window_decode_bytes = 33554432

abbrev pub max_history_chunk_bytes : ℕ
max_history_chunk_bytes = 524288

abbrev pub timeline_marker : String
timeline_marker = "remote-pi:timeline-v2"

unfoldable pub same_ids : List String → List String → Bool
same_ids [] [] = true
same_ids (x ∷ xs) (y ∷ ys) = x == y && same_ids xs ys
same_ids _ _ = false

abbrev pub ids : List BranchEntry → List String
ids branch = map (λ (e : BranchEntry). e.id) branch

-- A snapshot of a session that had no entry, of which nothing came since.
unfoldable pub is_empty_snapshot : CursorState → List BranchEntry → Bool
is_empty_snapshot cursor branch =
    length cursor.branch_entry_ids == 0
    && cursor.snapshot_head == cursor.session_id
    && length branch == 0

module _ (cursor : CursorState) (session : Session) where
  abbrev invalid_branch : Option ResetReason
  invalid_branch =
      elim ((any (λ (e : BranchEntry). e.id == cursor.snapshot_head) session.branch
          || is_empty_snapshot cursor session.branch)
        && same_ids (take (length cursor.branch_entry_ids) (ids session.branch))
            cursor.branch_entry_ids
        && same_ids (ids (session.branch_at cursor.snapshot_head)) cursor.branch_entry_ids) [
          | true ↦ none
          | false ↦ some branch_changed
        ]

  -- `snapshotInvalidReason`
  unfoldable pub snapshot_invalid_reason : Option ResetReason
  unfolding is_empty_snapshot
  snapshot_invalid_reason =
      if not (session.session_id == cursor.session_id)
      then some session_replaced
      else if not (session.history_generation == cursor.history_generation)
      then some generation_changed
      else invalid_branch
