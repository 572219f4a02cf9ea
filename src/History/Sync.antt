-- ===== src/History/Sync.antt =====
-- history.ts: `sync`, `syncInitial` and `page`.
use remote_pi.Base.{
  ℕ, String, Bool, true, false, not, Option, none, some, List, [], ◌∷◌, map, length, ltb, any,
  if◌then◌else◌,
}
use remote_pi.Base.Equality.{◌==◌, string_eq, nat_eq}
use remote_pi.Base.JsMap.{get, set, delete}
use remote_pi.History.{
  BranchEntry, Host, Request, CursorState, EventRecord, ErrorCode, invalid_cursor, reset_required,
  too_large, internal_error, ResetReason, session_replaced, generation_changed, ServerFrame,
  session_history_chunk, protocol_error, reset, Pager, Attempt, done, thrown, Protocol, ids,
  snapshot_invalid_reason,
}
use remote_pi.Transfer.Types.{HistoryChunkFrame}
use remote_pi.History.Window.{Window, recover_records, select_window}
use remote_pi.History.Chunking.{fragment_window}

abbrev pub Answer : Type 0
Answer = Pager × List ServerFrame

module _ (protocol : Protocol) (host : Host) (token : String) (request : Request) where
  abbrev pub fail : Pager → ErrorCode → String → Answer
  fail pager code message = (pager, protocol_error request code message ∷ [])

  abbrev pub reset_to : Pager → String → String → ResetReason → Answer
  reset_to pager session_id history_generation reason =
      (pager, reset request.target_channel_id session_id history_generation reason ∷ [])

  -- A reset with the reason, if there is one.
  unfoldable pub unless_invalid : Pager → String → String → Option ResetReason → Answer → Answer
  unless_invalid pager session_id history_generation none answer = answer
  unless_invalid pager session_id history_generation (some reason) answer =
      reset_to pager session_id history_generation reason

  abbrev pub older_cursor : CursorState → ℕ → CursorState
  older_cursor cursor position = record cursor { position = position; used = false; busy = false }

  -- `issueCursor` stored the token; it is forgotten where the frames cannot be made.
  abbrev pub with_cursor : Pager → Attempt (List HistoryChunkFrame) → CursorState → Answer
  with_cursor pager (done chunks) next = (
    record pager { cursors = set pager.cursors token next },
    map (session_history_chunk request.target_channel_id) chunks,
  )
  with_cursor pager (thrown message) next =
      fail (record pager { cursors = delete (set pager.cursors token next) token }) too_large
        message

  abbrev pub without_cursor : Pager → Attempt (List HistoryChunkFrame) → Answer
  without_cursor pager (done chunks) =
      (pager, map (session_history_chunk request.target_channel_id) chunks)
  without_cursor pager (thrown message) = fail pager too_large message

  abbrev pub has_older : List EventRecord → ℕ → Bool
  has_older records next_position = any (λ (r : EventRecord). ltb r.position next_position) records

  unfoldable pub page_window : Pager → CursorState → List EventRecord → Attempt Window → Answer
  page_window pager cursor records (thrown message) = fail pager too_large message
  page_window pager cursor records (done window) =
      if has_older records window.next_position
      then with_cursor pager (fragment_window protocol request cursor (some token) window.records)
          (older_cursor cursor window.next_position)
      else without_cursor pager (fragment_window protocol request cursor none window.records)

  -- The snapshot is checked again after the recovery.
  unfoldable pub page_records : Pager → CursorState → Attempt (List EventRecord) → Answer
  page_records pager cursor (thrown message) = fail pager internal_error "history recovery failed"
  page_records pager cursor (done records) =
      unless_invalid pager cursor.session_id cursor.history_generation
        (snapshot_invalid_reason cursor host.session_after)
        (page_window pager cursor records
          (select_window protocol records cursor.position request.limit))

  unfoldable pub page : Pager → CursorState → Answer
  page pager cursor =
      unless_invalid pager cursor.session_id cursor.history_generation
        (snapshot_invalid_reason cursor host.session)
        (page_records pager cursor (recover_records protocol host cursor))

  abbrev last_id : List BranchEntry → Option String
  last_id [] = none
  last_id (e ∷ []) = some e.id
  last_id (e ∷ f ∷ branch) = last_id (f ∷ branch)

  abbrev pub snapshot_head : String
  snapshot_head = elim (host.session.leaf_id) [ some id ↦ id | none ↦ host.session.session_id ]

  -- The last entry of a branch that has some is not the head.
  abbrev pub has_no_head : Bool
  has_no_head = elim (last_id host.session.branch) [
    | none ↦ false
    | some id ↦ not (id == snapshot_head)
  ]

  abbrev pub initial_cursor : CursorState
  initial_cursor = record {
    session_id = host.session.session_id;
    history_generation = host.session.history_generation;
    snapshot_head = snapshot_head;
    branch_entry_ids = ids host.session.branch;
    position = length host.session.branch;
    used = true;
    busy = true;
  }

  unfoldable pub sync_initial : Pager → Answer
  sync_initial pager =
      if has_no_head
      then fail pager reset_required "session has no current snapshot head"
      else page pager initial_cursor

  -- The `finally` of `sync`.
  abbrev pub idle : Answer → Answer
  idle (pager, frames) = (record pager { initial_busy = false }, frames)

  abbrev pub released : Option CursorState → String → Pager → Pager
  released none before pager = pager
  released (some cursor) before pager = record pager {
    cursors = set pager.cursors before (record cursor { busy = false });
  }

  abbrev pub release : String → Answer → Answer
  release before (pager, frames) = (released (get pager.cursors before) before pager, frames)

  unfoldable pub use_cursor : Pager → CursorState → Answer
  use_cursor pager cursor =
      let session = host.session in
      if not (cursor.session_id == session.session_id)
      then reset_to pager session.session_id session.history_generation session_replaced
      else if not (cursor.history_generation == session.history_generation)
      then reset_to pager session.session_id session.history_generation generation_changed
      else unless_invalid pager session.session_id session.history_generation
          (snapshot_invalid_reason cursor session) (page pager cursor)

  unfoldable pub sync_cursor : Pager → String → Option CursorState → Answer
  sync_cursor pager before none =
      reset_to pager host.session.session_id host.session.history_generation invalid_cursor
  sync_cursor pager before (some cursor) =
      if cursor.busy
      then fail pager ErrorCode.invalid_cursor "cursor is busy"
      else if cursor.used
      then reset_to pager host.session.session_id host.session.history_generation invalid_cursor
      else let taken = record cursor { busy = true; used = true } in
        release before
          (use_cursor (record pager { cursors = set pager.cursors before taken }) taken)

  abbrev pub sync_before : Pager → Option String → Answer
  sync_before pager (some before) = sync_cursor pager before (get pager.cursors before)
  sync_before pager none =
      if pager.initial_busy
      then fail pager ErrorCode.invalid_cursor "initial cursor is busy"
      else idle (sync_initial (record pager { initial_busy = true }))

  -- `token` is the random token of a cursor that this request issues.
  unfoldable pub sync : Pager → Answer
  sync pager = sync_before pager request.before

-- The requests that come to one pager, each with the host that it finds and the token for its cursor.
pub record Step : Type 0 where
  pub host : Host
  pub token : String
  pub request : Request

unfoldable pub step : Protocol → Step → Pager → Answer
step protocol s pager = sync protocol s.host s.token s.request pager

unfoldable pub sync_all : Protocol → List Step → Pager → Pager
sync_all protocol [] pager = pager
sync_all protocol (s ∷ steps) pager = sync_all protocol steps (step protocol s pager).0
