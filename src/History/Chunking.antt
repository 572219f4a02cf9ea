-- ===== src/History/Chunking.antt =====
-- history.ts: `fragmentWindow` and `makeChunk`, which cut a window into frames.
use remote_pi.Base.{
  ℕ, ◌+◌, String, Bool, true, false, not, ◌&&◌, ◌||◌, Option, none, some, List, [], ◌∷◌, ◌++◌, map,
  length, leb, any, is_some, flat_map, if◌then◌else◌,
}
use remote_pi.Base.Equality.{◌==◌, string_eq, nat_eq}
use remote_pi.Transfer.Types.{TimelineEvent, HistoryChunkFrame, HistoryFragment}
use remote_pi.Slicing.{event_fragments}
use remote_pi.History.{
  Request, CursorState, EventRecord, HistoryItem, event_item, fragment_item, Payload, Attempt, done,
  thrown, ◌>>=◌, Protocol, max_history_chunk_bytes,
}

abbrev pub no_payload : Payload
no_payload = record { events = []; fragments = [] }

abbrev pub is_empty : Payload → Bool
is_empty payload = length payload.events == 0 && length payload.fragments == 0

unfoldable pub append_item : Payload → HistoryItem → Payload
append_item payload (event_item e) = record payload { events = payload.events ++ e ∷ [] }
append_item payload (fragment_item f) = record payload { fragments = payload.fragments ++ f ∷ [] }

unfoldable pub make_chunk :
    Request → CursorState → Payload → Bool → Option String → ℕ → HistoryChunkFrame
make_chunk request cursor payload final next_before chunk_index = record {
  in_reply_to = request.request_id;
  session_id = cursor.session_id;
  history_generation = cursor.history_generation;
  snapshot_head = cursor.snapshot_head;
  chunk_index = chunk_index;
  final_chunk = final;
  eos = final && not (is_some next_before);
  next_before = if final then next_before else none;
  events = payload.events;
  fragments = payload.fragments;
}

module _ (protocol : Protocol) (request : Request) (cursor : CursorState)
    (next_before : Option String) where
  abbrev pub chunk_bytes : HistoryChunkFrame → ℕ
  chunk_bytes chunk = protocol.frame_bytes request.target_channel_id chunk

  abbrev pub non_final_frame_bytes : Payload → ℕ
  non_final_frame_bytes payload = chunk_bytes (make_chunk request cursor payload false none 0)

  abbrev pub final_frame_bytes : Payload → ℕ
  final_frame_bytes payload = chunk_bytes (make_chunk request cursor payload true next_before 0)

  -- `nonFinalFrameBytes(candidate) + tailOverhead <= contentLimit + tailOverhead`, where the sum on
  -- the right is the limit and `tailOverhead` a difference, here brought to the other side.
  unfoldable pub fits : Payload → Bool
  fits payload =
      leb (non_final_frame_bytes payload + final_frame_bytes no_payload)
        (max_history_chunk_bytes + non_final_frame_bytes no_payload)

  -- An event whose own frame would be too large is cut into fragments.
  unfoldable pub is_whole : TimelineEvent → Bool
  is_whole e =
      leb (final_frame_bytes (record { events = e ∷ []; fragments = [] })) max_history_chunk_bytes

  unfoldable pub items_of_record : EventRecord → List HistoryItem
  items_of_record r =
      if is_whole r.event
      then event_item r.event ∷ []
      else map fragment_item
          (event_fragments protocol.to_base64 r.event.event_id (protocol.encode r.event))

  -- The payload has a fragment of the same event.
  abbrev pub repeated_fragment : Payload → HistoryItem → Bool
  repeated_fragment payload (event_item e) = false
  repeated_fragment payload (fragment_item f) =
      any (λ (g : HistoryFragment). g.event_id == f.event_id) payload.fragments

  abbrev pub goes_in : Payload → HistoryItem → Bool
  goes_in current item = not (repeated_fragment current item) && fits (append_item current item)

  unfoldable pub pack : List Payload → Payload → List HistoryItem → Attempt (List Payload)
  pack payloads current [] = done (
      if not (is_empty current) || length payloads == 0 then payloads ++ current ∷ [] else payloads)
  pack payloads current (item ∷ items) =
      if goes_in current item
      then pack payloads (append_item current item) items
      else if is_empty current
      then thrown "history item cannot fit in a 512 KiB chunk"
      else pack (payloads ++ current ∷ []) (append_item no_payload item) items

  -- A frame that is too large, or that `encodeServerFrameV2` does not take, is an error.
  unfoldable pub check_frame : HistoryChunkFrame → Attempt HistoryChunkFrame
  check_frame chunk =
      if leb (chunk_bytes chunk) max_history_chunk_bytes
      then elim (protocol.encode_error request.target_channel_id chunk) [
        | none ↦ done chunk
        | some message ↦ thrown message
      ]
      else thrown "history chunk exceeds 512 KiB"

  unfoldable pub frames_from : ℕ → List Payload → Attempt (List HistoryChunkFrame)
  frames_from chunk_index [] = done []
  frames_from chunk_index (payload ∷ payloads) =
      let rest = frames_from (chunk_index + 1) payloads in
      let final = length payloads == 0 in
      check_frame (make_chunk request cursor payload final next_before chunk_index) >>= λ chunk.
      rest >>= λ chunks. done (chunk ∷ chunks)

  -- `fragmentWindow`
  unfoldable pub fragment_window : List EventRecord → Attempt (List HistoryChunkFrame)
  fragment_window records =
      pack [] no_payload (flat_map items_of_record records) >>= λ payloads. frames_from 0 payloads
