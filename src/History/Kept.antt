-- ===== src/History/Kept.antt =====
-- history.ts: a request leaves every cursor as it was that it does not name or issue.
use remote_pi.Base.{String, ◌≡◌, refl, false, Option, none, some, List, arith, inl, inr, Bool-cases}
use remote_pi.Base.Equality.{◌==◌, string_eq}
use remote_pi.Base.JsMap.{get, set, get-set, get-delete}
use remote_pi.Transfer.Types.{HistoryChunkFrame}
use remote_pi.History.{
  Host, Request, CursorState, EventRecord, ResetReason, Pager, Attempt, done, thrown, Protocol,
  snapshot_invalid_reason,
}
use remote_pi.History.Window.{Window, recover_records, select_window}
use remote_pi.History.Chunking.{fragment_window}
use remote_pi.History.Sync.{
  Answer, unless_invalid, older_cursor, has_older, page_window, page_records, page, initial_cursor,
  has_no_head, sync_initial, use_cursor, with_cursor, without_cursor,
}

module _ (protocol : Protocol) (host : Host) (token : String) (request : Request) (k : String) where
  -- The cursor under `k` is as it was.
  abbrev pub Keeps : Pager → Answer → Type 0
  Keeps pager answer = get answer.0.cursors k ≡ get pager.cursors k

  pub with_cursor-Keeps :
      (pager : Pager) (frames : Attempt (List HistoryChunkFrame)) (next : CursorState)
      → (token == k) ≡ false
      → Keeps pager (with_cursor protocol host token request pager frames next)
  with_cursor-Keeps pager (done chunks) next other =
      rw (get-set pager.cursors token k next, other) refl
  with_cursor-Keeps pager (thrown reason) next other =
      rw
        (
          get-delete (set pager.cursors token next) token k,
          get-set pager.cursors token k next,
          other,
        )
        refl

  pub without_cursor-Keeps :
      (pager : Pager) (frames : Attempt (List HistoryChunkFrame))
      → Keeps pager (without_cursor protocol host token request pager frames)
  without_cursor-Keeps pager (done chunks) = refl
  without_cursor-Keeps pager (thrown reason) = refl

  pub page_window-Keeps :
      (pager : Pager) (cursor : CursorState) (records : List EventRecord) (window : Attempt Window)
      → (token == k) ≡ false
      → Keeps pager (page_window protocol host token request pager cursor records window)
  unfolding page_window
  page_window-Keeps pager cursor records (thrown reason) other = refl
  page_window-Keeps pager cursor records (done window) other =
      elim (Bool-cases (has_older protocol host token request records window.next_position)) [
        | inl older ↦ rw older (
            with_cursor-Keeps pager
              (fragment_window protocol request cursor (some token) window.records)
              (older_cursor protocol host token request cursor window.next_position) other)
        | inr oldest ↦ rw oldest (
            without_cursor-Keeps pager
              (fragment_window protocol request cursor none window.records))
      ]

  pub unless_invalid-Keeps :
      (pager : Pager) (session_id history_generation : String) (reason : Option ResetReason)
      (answer : Answer)
      → Keeps pager answer
      → Keeps pager (
          unless_invalid protocol host token request pager session_id history_generation reason
            answer)
  unfolding unless_invalid
  unless_invalid-Keeps pager session_id history_generation none answer kept = kept
  unless_invalid-Keeps pager session_id history_generation (some reason) answer kept = refl

  pub page_records-Keeps :
      (pager : Pager) (cursor : CursorState) (records : Attempt (List EventRecord))
      → (token == k) ≡ false
      → Keeps pager (page_records protocol host token request pager cursor records)
  unfolding page_records
  page_records-Keeps pager cursor (thrown reason) other = refl
  page_records-Keeps pager cursor (done records) other =
      let window = select_window protocol records cursor.position request.limit in
      unless_invalid-Keeps pager cursor.session_id cursor.history_generation
        (snapshot_invalid_reason cursor host.session_after)
        (page_window protocol host token request pager cursor records window)
        (page_window-Keeps pager cursor records window other)

  pub page-Keeps :
      (pager : Pager) (cursor : CursorState)
      → (token == k) ≡ false
      → Keeps pager (page protocol host token request pager cursor)
  unfolding page
  page-Keeps pager cursor other =
      unless_invalid-Keeps pager cursor.session_id cursor.history_generation
        (snapshot_invalid_reason cursor host.session)
        (page_records protocol host token request pager cursor
          (recover_records protocol host cursor))
        (page_records-Keeps pager cursor (recover_records protocol host cursor) other)

  pub use_cursor-Keeps :
      (pager : Pager) (cursor : CursorState)
      → (token == k) ≡ false
      → Keeps pager (use_cursor protocol host token request pager cursor)
  unfolding use_cursor
  use_cursor-Keeps pager cursor other = ground (
    arith,
    unless_invalid-Keeps pager host.session.session_id host.session.history_generation
        (snapshot_invalid_reason cursor host.session)
        (page protocol host token request pager cursor) (page-Keeps pager cursor other),
  )

  pub sync_initial-Keeps :
      (pager : Pager)
      → (token == k) ≡ false
      → Keeps pager (sync_initial protocol host token request pager)
  unfolding sync_initial
  sync_initial-Keeps pager other = elim (Bool-cases (has_no_head protocol host token request)) [
    | inl headless ↦ rw headless refl
    | inr headed ↦ rw headed (page-Keeps pager (initial_cursor protocol host token request) other)
  ]
