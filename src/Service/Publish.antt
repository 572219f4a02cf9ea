-- ===== src/Service/Publish.antt =====
-- v2_service.ts: `partial`, `publish` and `publishFrames`.
pub mod Delivered
use remote_pi.Base.{
  ℕ, String, Bool, not, ◌||◌, Option, none, some, List, [], ◌∷◌, map, leb, if◌then◌else◌,
}
use remote_pi.Base.Equality.{◌==◌, string_eq}
use remote_pi.Transfer.Types.{
  Bytes, TimelineEvent, TimelineTransferScope, HistoryFragment, TimelineEventFragmentFrame,
}
use remote_pi.Slicing.{event_fragments}

abbrev pub max_frame_bytes : ℕ
max_frame_bytes = 2097152

-- The schema, `JSON.stringify` with the text encoder, and base64.
pub record Encoder : Type 0 where
  -- `TimelineEventSchema.safeParse`
  pub parse : TimelineEvent → Option TimelineEvent
  -- The bytes of the `timeline_event` frame that has the event.
  pub frame_bytes : TimelineEvent → ℕ
  pub encode : TimelineEvent → Bytes
  pub to_base64 : Bytes → String

pub data Broadcast : Type 0 where
  timeline_event : TimelineTransferScope → TimelineEvent → Broadcast
  timeline_event_fragment : TimelineEventFragmentFrame → Broadcast

abbrev pub fragment_frame : TimelineTransferScope → HistoryFragment → Broadcast
fragment_frame scope f = timeline_event_fragment (record {
  session_id = scope.session_id;
  history_generation = scope.history_generation;
  fragment = f;
})

-- The session and the generation that a partial names.
unfoldable pub is_current_partial : TimelineTransferScope → TimelineTransferScope → Bool
is_current_partial scope p = not (
    not (p.session_id == scope.session_id)
    || not (p.history_generation == scope.history_generation))

module _ (encoder : Encoder) (scope : TimelineTransferScope) where
  frames_of_parsed : Option TimelineEvent → List Broadcast
  frames_of_parsed none = []
  frames_of_parsed (some event) =
      if leb (encoder.frame_bytes event) max_frame_bytes
      then timeline_event scope event ∷ []
      else map (fragment_frame scope)
          (event_fragments encoder.to_base64 event.event_id (encoder.encode event))

  -- `publishFrames`; `scope` is the session id and the generation of the service.
  unfoldable pub publish_frames : TimelineEvent → List Broadcast
  unfolding frames_of_parsed
  publish_frames event = frames_of_parsed (encoder.parse event)

  -- `publish`: the first frame, or `null`.
  unfoldable pub publish : TimelineEvent → Option Broadcast
  publish event = elim (publish_frames event) [ [] ↦ none | b ∷ _ ↦ some b ]
