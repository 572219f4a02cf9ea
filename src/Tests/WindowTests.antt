-- ===== src/Tests/WindowTests.antt =====
-- timeline-transfer.ts: a chunk of another session is discarded; one chunk with one event completes a
-- window.
use remote_pi.Base.{◌≡◌, refl, true, some, none, List, [], ◌∷◌, All}
use remote_pi.Base.JsMap.{get, set}
use remote_pi.Transfer.Types.{HistoryChunkFrame}
use remote_pi.Transfer.Chunks.{
  complete_window, cleared, open_window, ◌>>=◌, discard_if, or_fail, bind_scope, tail_after,
  is_contiguous, window_events,
}
use remote_pi.Transfer.Window.{accept, accept_chunk}
use remote_pi.Transfer.Checking.{InScope}
use remote_pi.Transfer.Scoped.{accept_chunks, accept-InScope}
use remote_pi.Tests.TransferTests.{sample_codec, sample_scope, sample_event}

abbrev first_chunk : HistoryChunkFrame
first_chunk = record {
  in_reply_to = "q";
  session_id = "s";
  history_generation = "g";
  snapshot_head = "h";
  chunk_index = 0;
  final_chunk = true;
  eos = true;
  next_before = none;
  events = sample_event ∷ [];
  fragments = [];
}

abbrev foreign : List HistoryChunkFrame
foreign = record first_chunk { in_reply_to = "p" } ∷ []

first_chunk_completes :
    (accept sample_codec "q"
      (some sample_scope)
      first_chunk
      (accept_chunks sample_codec sample_scope "q" foreign (cleared open_window))).1
    ≡ complete_window (sample_event ∷ []) true none
unfolding accept accept_chunks accept_chunk ◌>>=◌ discard_if or_fail bind_scope tail_after
    is_contiguous window_events get set
first_chunk_completes = refl

accept-InScope_example : All (InScope sample_scope) (sample_event ∷ [])
accept-InScope_example =
    accept-InScope sample_codec sample_scope "q" foreign first_chunk (sample_event ∷ []) true none
      first_chunk_completes
