-- ===== src/Tests/TimelineTests.antt =====
-- timeline-runtime.ts: a committed event, an event of the same identifier with another content, and
-- the status of a message that was not sent.
use remote_pi.Base.{String, ◌≡◌, refl, some, none, List, [], ◌∷◌}
use remote_pi.Base.JsMap.{get}
use remote_pi.Timeline.Types.{
  TimelineEvent, assistant, FrameScope, ServerFrame, timeline_event, user_message_status, received,
  Runtime, Decoders,
}
use remote_pi.Timeline.Pending.{empty}
use remote_pi.Timeline.Frames.{receive_all}
use remote_pi.Timeline.Committed.{content, receive_all-content}

abbrev lenient : Decoders
lenient = record { parse_event = λ event. some event; parse_partial = λ p. some p }

abbrev answer : String → TimelineEvent
answer json = record {
  event_id = "e";
  session_id = "s";
  history_generation = "g";
  group_id = some "m";
  kind = assistant;
  json = json;
}

abbrev one_event : Runtime
one_event = record empty {
  scope = some (record {
    device_id = "d";
    endpoint_id = "p";
    runtime_instance_id = "r";
    session_id = "s";
    history_generation = "g";
    self_sender_ref = "o";
    channel_id = "c";
  });
  events = ("e", answer "yes") ∷ [];
}

abbrev of_session : FrameScope
of_session = record { session_id = "s"; history_generation = "g" }

abbrev later_frames : List ServerFrame
later_frames =
    timeline_event of_session (answer "no") ∷ user_message_status of_session "q" received none ∷ []

one_event-content : content "e" one_event ≡ some "yes"
unfolding get
one_event-content = refl

receive_all-content_example :
    content "e" (receive_all lenient 0 later_frames one_event) ≡ some "yes"
receive_all-content_example =
    receive_all-content lenient 0 "e" "yes" later_frames one_event (refl, (refl, tt))
      one_event-content
