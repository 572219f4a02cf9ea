-- ===== src/History/Paging.antt =====
-- history.ts: a client that asks for older pages, each with the cursor of the page before.
use mathlib.Core.Option.{some-injective}
use remote_pi.Base.{
  ℕ, ◌+◌, ◌<◌, String, ◌≡◌, refl, sym, ap, ◌∙◌, inl, inr, true, false, Option, none, some, List, [],
  ◌∷◌, map, length, arith, Bool-cases,
}
use remote_pi.Base.Equality.{◌==◌, ==_self, string_eq, nat_eq}
use remote_pi.Base.JsMap.{get, set, get-set}
use remote_pi.Transfer.Types.{HistoryChunkFrame}
use remote_pi.History.{
  Host, Request, CursorState, EventRecord, ResetReason, ServerFrame, session_history_chunk,
  protocol_error, reset, Pager, Attempt, done, thrown, Protocol, snapshot_invalid_reason,
}
use remote_pi.History.Window.{Window, recover_records, select_window}
use remote_pi.History.Chunking.{make_chunk, fragment_window}
use remote_pi.History.Sync.{
  Answer, unless_invalid, older_cursor, with_cursor, without_cursor, has_older, page_window,
  page_records, page, initial_cursor, has_no_head, sync_initial, released, use_cursor, sync_cursor,
}
use remote_pi.History.Packing.{Gives, Gives-weaken}
use remote_pi.History.Frames.{Content, Numbered, fragment_window-Content}
use remote_pi.History.Selection.{Before, IsPage, recover_records-Before, select_window-IsPage}

-- The cursor that the last frame of an answer names.
abbrev pub next_of : List ServerFrame → Option String
next_of [] = none
next_of (session_history_chunk channel chunk ∷ []) = chunk.next_before
next_of (protocol_error request code reason ∷ []) = none
next_of (reset channel session_id history_generation reason ∷ []) = none
next_of (f ∷ g ∷ frames) = next_of (g ∷ frames)

-- `token` names a cursor that is before `position`.
pub record Issued (position : ℕ) (token : String) (pager : Pager) : Type 0 where
  pub cursor : CursorState
  pub found : get pager.cursors token ≡ some cursor
  pub earlier : cursor.position < position

-- The cursor that an answer names, if any, is before `position`.
abbrev pub Descends : ℕ → Answer → Type 0
Descends position answer = (t : String) → next_of answer.1 ≡ some t → Issued position t answer.0

module _ (protocol : Protocol) (host : Host) (token : String) (request : Request) where
  next_of-chunks :
      (cursor : CursorState) (next : Option String) (index : ℕ) (chunks : List HistoryChunkFrame)
      (t : String)
      → Numbered protocol request cursor next index chunks
      → next_of (map (session_history_chunk request.target_channel_id) chunks) ≡ some t
      → next ≡ some t
  unfolding make_chunk
  next_of-chunks cursor next index [] t numbered named = absurd (ground arith)
  next_of-chunks cursor next index (c ∷ []) t numbered named =
      ap (λ (c : HistoryChunkFrame). c.next_before) (sym numbered.0) ∙ named
  next_of-chunks cursor next index (c ∷ d ∷ chunks) t numbered named =
      next_of-chunks cursor next (index + 1) (d ∷ chunks) t numbered.1 named

  with_cursor-Descends :
      (pager : Pager) (position : ℕ) (cursor next : CursorState)
      (frames : Attempt (List HistoryChunkFrame))
      → Gives (Numbered protocol request cursor (some token) 0) frames
      → next.position < position
      → Descends position (with_cursor protocol host token request pager frames next)
  with_cursor-Descends pager position cursor next (done chunks) numbered earlier t named =
      let same : some token ≡ some t =
        next_of-chunks cursor (some token) 0 chunks t numbered named in
      let own : token ≡ t = some-injective token t same in
      record {
        cursor = next;
        found = rw (sym own) (rw (get-set pager.cursors token token next, ==_self token) refl);
        earlier = earlier;
      }
  with_cursor-Descends pager position cursor next (thrown reason) numbered earlier t named =
      absurd (ground arith)

  without_cursor-Descends :
      (pager : Pager) (position : ℕ) (cursor : CursorState)
      (frames : Attempt (List HistoryChunkFrame))
      → Gives (Numbered protocol request cursor none 0) frames
      → Descends position (without_cursor protocol host token request pager frames)
  without_cursor-Descends pager position cursor (done chunks) numbered t named =
      let nothing : none ≡ some t = next_of-chunks cursor none 0 chunks t numbered named in
      absurd (ground (arith, nothing))
  without_cursor-Descends pager position cursor (thrown reason) numbered t named =
      absurd (ground arith)

  window_frames-Numbered :
      (cursor : CursorState) (next : Option String) (records : List EventRecord)
      → Gives
          (Numbered protocol request cursor next 0)
          (fragment_window protocol request cursor next records)
  window_frames-Numbered cursor next records =
      Gives-weaken (Content protocol request cursor next records)
        (Numbered protocol request cursor next 0)
        (fragment_window protocol request cursor next records)
        (λ chunks. λ (count, events, fragments, numbered, small, distinct). numbered)
        (fragment_window-Content protocol request cursor next records)

  older-positive :
      (records : List EventRecord) (n : ℕ)
      → has_older protocol host token request records n ≡ true
      → 0 < n
  older-positive [] n older = absurd (ground arith)
  older-positive (r ∷ records) n older = ground (arith, older-positive records n, older)

  page_window-Descends :
      (pager : Pager) (position : ℕ) (cursor : CursorState) (records : List EventRecord)
      (window : Attempt Window)
      → Gives (IsPage position) window
      → Descends position (page_window protocol host token request pager cursor records window)
  unfolding page_window
  page_window-Descends pager position cursor records (thrown reason) h =
      λ t. λ named. absurd (ground arith)
  page_window-Descends pager position cursor records (done window) h =
      elim (Bool-cases (has_older protocol host token request records window.next_position)) [
        | inl older ↦ rw older (
            with_cursor-Descends pager position cursor
              (older_cursor protocol host token request cursor window.next_position)
              (fragment_window protocol request cursor (some token) window.records)
              (window_frames-Numbered cursor (some token) window.records)
              (h.1 (older-positive records window.next_position older)))
        | inr oldest ↦ rw oldest (
            without_cursor-Descends pager position cursor
              (fragment_window protocol request cursor none window.records)
              (window_frames-Numbered cursor none window.records))
      ]

  unless_invalid-Descends :
      (pager : Pager) (position : ℕ) (session_id history_generation : String)
      (reason : Option ResetReason) (answer : Answer)
      → Descends position answer
      → Descends position (
          unless_invalid protocol host token request pager session_id history_generation reason
            answer)
  unfolding unless_invalid
  unless_invalid-Descends pager position session_id history_generation none answer h = h
  unless_invalid-Descends pager position session_id history_generation (some reason) answer h =
      λ t. λ named. absurd (ground arith)

  page_records-Descends :
      (pager : Pager) (cursor : CursorState) (records : Attempt (List EventRecord))
      → Gives (Before cursor.position) records
      → Descends cursor.position (page_records protocol host token request pager cursor records)
  unfolding page_records
  page_records-Descends pager cursor (thrown reason) h = λ t. λ named. absurd (ground arith)
  page_records-Descends pager cursor (done records) h =
      let window = select_window protocol records cursor.position request.limit in
      unless_invalid-Descends pager cursor.position cursor.session_id cursor.history_generation
        (snapshot_invalid_reason cursor host.session_after)
        (page_window protocol host token request pager cursor records window)
        (page_window-Descends pager cursor.position cursor records window
          (select_window-IsPage protocol records cursor.position request.limit h))

  page-Descends :
      (pager : Pager) (cursor : CursorState)
      → Descends cursor.position (page protocol host token request pager cursor)
  unfolding page
  page-Descends pager cursor =
      let records = recover_records protocol host cursor in
      unless_invalid-Descends pager cursor.position cursor.session_id cursor.history_generation
        (snapshot_invalid_reason cursor host.session)
        (page_records protocol host token request pager cursor records)
        (page_records-Descends pager cursor records (recover_records-Before protocol host cursor))

  use_cursor-Descends :
      (pager : Pager) (cursor : CursorState)
      → Descends cursor.position (use_cursor protocol host token request pager cursor)
  unfolding use_cursor
  use_cursor-Descends pager cursor =
      let session = host.session in
      let paged =
        unless_invalid-Descends pager cursor.position session.session_id session.history_generation
          (snapshot_invalid_reason cursor session) (page protocol host token request pager cursor)
          (page-Descends pager cursor) in
      elim (Bool-cases (cursor.session_id == session.session_id)) [
        | inl same_session ↦
            elim (Bool-cases (cursor.history_generation == session.history_generation)) [
              | inl same_generation ↦ rw (same_session, same_generation) paged
              | inr changed ↦ rw (same_session, changed) (λ t. λ named. absurd (ground arith))
            ]
        | inr replaced ↦ rw replaced (λ t. λ named. absurd (ground arith))
      ]

  released-Issued :
      (pager : Pager) (position : ℕ) (before t : String) (o : Option CursorState)
      → get pager.cursors before ≡ o
      → Issued position t pager
      → Issued position t (released protocol host token request o before pager)
  released-Issued pager position before t none absent issued = issued
  released-Issued pager position before t (some c) there issued =
      let freed : CursorState = record c { busy = false } in
      elim (Bool-cases (before == t)) [
        | inl same ↦
            let both : some c ≡ some issued.cursor =
              sym there
              ∙ ap (λ k. get pager.cursors k) ((string_eq.same_iff before t).0 same)
              ∙ issued.found in
            record {
              cursor = freed;
              found = rw (get-set pager.cursors before t freed, same) refl;
              earlier =
                  rw (ap (λ (c : CursorState). c.position) (some-injective c issued.cursor both))
                    issued.earlier;
            }
        | inr apart ↦ record {
          cursor = issued.cursor;
          found = rw (get-set pager.cursors before t freed, apart) issued.found;
          earlier = issued.earlier;
        }
      ]

  pub sync_cursor-Descends :
      (pager : Pager) (before : String) (cursor : CursorState)
      → Descends cursor.position
          (sync_cursor protocol host token request pager before (some cursor))
  unfolding sync_cursor
  sync_cursor-Descends pager before cursor =
      let taken : CursorState = record cursor { busy = true; used = true } in
      let pager' : Pager = record pager { cursors = set pager.cursors before taken } in
      let answer = use_cursor protocol host token request pager' taken in
      elim (Bool-cases cursor.busy) [
        | inl busy ↦ rw busy (λ t. λ named. absurd (ground arith))
        | inr free ↦ elim (Bool-cases cursor.used) [
          | inl used ↦ rw (free, used) (λ t. λ named. absurd (ground arith))
          | inr unused ↦
              rw (free, unused)
                (λ t. λ named.
                  released-Issued answer.0 cursor.position before t (get answer.0.cursors before)
                    refl (use_cursor-Descends pager' taken t named))
        ]
      ]

  pub sync_initial-Descends :
      (pager : Pager)
      → Descends (length host.session.branch) (sync_initial protocol host token request pager)
  unfolding sync_initial
  sync_initial-Descends pager = elim (Bool-cases (has_no_head protocol host token request)) [
    | inl headless ↦ rw headless (λ t. λ named. absurd (ground arith))
    | inr headed ↦ rw headed (page-Descends pager (initial_cursor protocol host token request))
  ]
