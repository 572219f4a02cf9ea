-- ===== src/Transfer/Window.antt =====
-- timeline-transfer.ts: `HistoryWindowAssembler`.
use remote_pi.Base.{
  ℕ, ◌+◌, String, not, ◌&&◌, ◌||◌, Option, none, some, List, [], ◌∷◌, any, length, ltb,
  if◌then◌else◌,
}
use remote_pi.Base.Equality.{◌==◌, nat_eq, string_eq}
use remote_pi.Base.JsMap
use remote_pi.Base.JsMap.{JsMap, values}
use remote_pi.Transfer.Types.{
  TimelineEvent, TimelineTransferScope, HistoryFragment, HistoryChunkFrame, TransferResult,
  complete, discarded, FragmentStates, max_window_bytes, Codec, in_scope,
}
use remote_pi.Transfer.Fragments.{add_fragment, finish_fragment}
use remote_pi.Transfer.Chunks.{
  HistoryWindowResult, pending_window, complete_window, WindowState, FinalTail, Window, Checked, ok,
  fail, discard_if, or_fail, cleared, expects, bind_scope, past_tail, tail_after, is_contiguous,
  member, window_events, discarded_window, ignored_window, open_window, closed_complete,
  closed_discarded, ◌>>=◌, ◌>>◌,
}

module _ (codec : Codec) where
  sum_lengths : List TimelineEvent → ℕ
  sum_lengths [] = 0
  sum_lengths (e ∷ events) = codec.utf8_length e + sum_lengths events

  decoded_lengths : List HistoryFragment → Checked ℕ
  decoded_lengths [] = ok 0
  decoded_lengths (f ∷ fragments) = do
    bytes ← or_fail (codec.decode_fragment f) "invalid_history_window"
    n ← decoded_lengths fragments
    ok (length bytes + n)

  -- One event of a chunk: it is of the scope, and new.
  unfoldable pub add_event : TimelineTransferScope → TimelineEvent → Window → Checked Window
  add_event scope value w = do
    event ← or_fail (codec.parse_event value) "invalid_history_window"
    discard_if
        (not (in_scope scope event.session_id event.history_generation)
          || (member event.event_id w.formal_event_ids
              || (JsMap.has w.complete_events event.event_id
                  || JsMap.has w.fragment_states event.event_id)))
        "duplicate_or_conflicting_event"
    ok (record w {
      formal_event_ids = event.event_id ∷ w.formal_event_ids;
      complete_events = JsMap.set w.complete_events event.event_id event;
    })

  unfoldable pub add_events : TimelineTransferScope → List TimelineEvent → Window → Checked Window
  unfolding add_event
  add_events scope [] w = ok w
  add_events scope (e ∷ events) w = do w' ← add_event scope e w; add_events scope events w'

  unfoldable pub added_result : FragmentStates × Option TransferResult → Checked FragmentStates
  added_result (states, some (discarded reason)) = fail reason
  added_result (states, _) = ok states

  unfoldable pub finished_result : Window → FragmentStates × TransferResult → Checked Window
  finished_result w (states, discarded reason) = fail reason
  finished_result w (states, complete event) =
      if JsMap.has w.complete_events event.event_id
      then fail "duplicate_or_conflicting_event"
      else ok (record w {
        fragment_states = states;
        complete_events = JsMap.set w.complete_events event.event_id event;
      })
  finished_result w (states, _) = ok (record w { fragment_states = states })

  -- One fragment of a chunk.
  unfoldable pub add_window_fragment :
      TimelineTransferScope → HistoryFragment → Window → Checked Window
  unfolding added_result finished_result
  add_window_fragment scope f w = do
    discard_if (member f.event_id w.formal_event_ids || JsMap.has w.complete_events f.event_id)
        "duplicate_or_conflicting_event"
    bytes ← or_fail (codec.decode_fragment f) "invalid_history_window"
    states ← added_result (add_fragment w.fragment_states f bytes)
    finished_result w (finish_fragment codec scope states f.event_id)

  unfoldable pub add_fragments :
      TimelineTransferScope → List HistoryFragment → Window → Checked Window
  unfolding add_window_fragment
  add_fragments scope [] w = ok w
  add_fragments scope (f ∷ fragments) w = do
    w' ← add_window_fragment scope f w
    add_fragments scope fragments w'

  -- `completeWindow`, where there is a final tail; the fail is a throw of `validateWindowSizeV2`.
  unfoldable pub complete_with : FinalTail → Window → Checked (Window × HistoryWindowResult)
  complete_with tail w = do
    discard_if (not (codec.is_window_size (values w.complete_events))) "invalid_history_window"
    ok (
      record w { state = closed_complete },
      complete_window (window_events w) tail.eos tail.next_before,
    )

  unfoldable pub complete_if : Option FinalTail → Window → Checked (Window × HistoryWindowResult)
  complete_if none w = ok (w, pending_window)
  complete_if (some tail) w =
      let completed = complete_with tail w in
      if not (is_contiguous w.chunks tail.index) || ltb 0 (length w.fragment_states)
      then ok (w, pending_window)
      else completed

  -- The body of `accept`, from the parsed frame on.
  unfoldable pub accept_chunk :
      Option TimelineTransferScope
      → HistoryChunkFrame
      → Window
      → Checked (Window × HistoryWindowResult)
  unfolding sum_lengths decoded_lengths add_events add_fragments complete_if complete_with
  accept_chunk expected f w = do
    discard_if (not (codec.is_history_chunk f)) "invalid_history_chunk"
    discard_if (not (codec.is_chunk_size f)) "invalid_history_window"
    discard_if (not (expects expected f)) "history_scope_mismatch"
    scope ← bind_scope w.scope f
    discard_if (JsMap.has w.chunks f.chunk_index) "duplicate_chunk"
    discard_if (past_tail w.final_tail f) "invalid_final_tail"
    discard_if (f.final_chunk && any (λ c. ltb f.chunk_index c.0) w.chunks) "invalid_final_tail"
    fragment_bytes ← decoded_lengths f.fragments
    let decoded = w.total_decoded_bytes + (sum_lengths f.events + fragment_bytes)
    discard_if (ltb max_window_bytes decoded) "window_too_large"
    let stored = record w {
      chunks = JsMap.set w.chunks f.chunk_index f;
      scope = some scope;
      total_decoded_bytes = decoded;
      final_tail = tail_after w.final_tail f;
    }
    with_events ← add_events scope.session f.events stored
    with_fragments ← add_fragments scope.session f.fragments with_events
    complete_if with_fragments.final_tail with_fragments

  unfoldable pub settled : Checked (Window × HistoryWindowResult) → Window × HistoryWindowResult
  settled (ok result) = result
  settled (fail reason) = (cleared closed_discarded, discarded_window reason)

  abbrev pub accept_open :
      String
      → Option TimelineTransferScope
      → HistoryChunkFrame
      → Window
      → Window × HistoryWindowResult
  accept_open in_reply_to expected f w =
      if not (f.in_reply_to == in_reply_to)
      then (w, ignored_window "request_mismatch")
      else settled (accept_chunk expected f w)

  unfoldable pub accept_state :
      WindowState
      → String
      → Option TimelineTransferScope
      → HistoryChunkFrame
      → Window
      → Window × HistoryWindowResult
  accept_state open_window in_reply_to expected f w = accept_open in_reply_to expected f w
  accept_state closed_complete in_reply_to expected f w = (w, ignored_window "window_complete")
  accept_state closed_discarded in_reply_to expected f w = (w, ignored_window "window_discarded")

  unfoldable pub accept :
      String
      → Option TimelineTransferScope
      → HistoryChunkFrame
      → Window
      → Window × HistoryWindowResult
  unfolding accept_state settled cleared
  accept in_reply_to expected f w = accept_state w.state in_reply_to expected f w

  finalize_tail : Option FinalTail → Window → Option (Window × HistoryWindowResult)
  finalize_tail none w = some (cleared closed_discarded, discarded_window "history_chunk_gap")
  finalize_tail (some tail) w =
      if not (is_contiguous w.chunks tail.index)
      then some (cleared closed_discarded, discarded_window "history_chunk_gap")
      else if ltb 0 (length w.fragment_states)
      then some (cleared closed_discarded, discarded_window "incomplete_fragment")
      else elim (complete_with tail w) [ ok result ↦ some result | fail reason ↦ none ]

  -- `finalize`; `none` is the throw of `validateWindowSizeV2`, which nothing catches here.
  unfoldable pub finalize : Window → Option (Window × HistoryWindowResult)
  unfolding finalize_tail cleared complete_with
  finalize w = elim w.state [
    | open_window ↦ finalize_tail w.final_tail w
    | closed_complete ↦ some (w, ignored_window "window_complete")
    | closed_discarded ↦ some (w, ignored_window "window_discarded")
  ]
