-- ===== src/Tests/AgentTimelineTests.antt =====
-- runtime.ts: a session with one marked message of the assistant.
use remote_pi.Base.{false, ◌≡◌, refl, inr, none, some, [], ◌∷◌, flat_map}
use remote_pi.Base.Equality.{string_eq}
use remote_pi.AgentTimeline.Deltas.{Units, max_partial_delta_chars, partial_delta_chunks}
use remote_pi.AgentTimeline.Deltas.WholePairs.{Pieces, partial_delta_chunks-Pieces}
use remote_pi.AgentTimeline.Types.{
  assistant, text_content, MessageRecord, marker_data, other_data, message_entry, custom_entry,
  SessionEntry, Session, Marker, assistant_marker, TimelineEvent, assistant_event, text_block,
  PendingMessage, Platform, timeline_marker,
}
use remote_pi.AgentTimeline.Events.{
  unknown_correlation, to_timeline_event, to_system_event, assistant_blocks,
}
use remote_pi.AgentTimeline.Runtime.{entries_after, scan_target, ended_event}
use remote_pi.AgentTimeline.Recovery.{marked, legacy, events_of, recover}
use remote_pi.AgentTimeline.Distinct.{
  message_start, message_end, ended, IsDistinct, silent, run_calls, run_calls-IsDistinct,
}
use remote_pi.Base.Membership.{In}
use remote_pi.AgentTimeline.Equivalence.{ended_event-recover}

abbrev platform : Platform
platform = record {
  parse_marker = λ d. elim d [ marker_data m ↦ some m | other_data event_id s ↦ none ];
  parse_event = λ event. some event;
  base64_length = λ s. 0;
  trim = λ s. s;
  number_to_string = λ n. "5";
}

abbrev answer : MessageRecord
answer = record {
  object = 1;
  role = assistant;
  content = text_content "hello";
  timestamp = some 5;
  stop_reason = none;
  error_message = none;
  tool_call_id = none;
  tool_name = none;
  is_error = false;
  args = "{}";
  api = none;
  provider = none;
  model = none;
}

abbrev marker : Marker
marker = record { event_id = "e"; group_id = some "u"; kind = assistant_marker }

abbrev marker_entry : SessionEntry
marker_entry = record {
  id = "m";
  timestamp = some 7;
  kind = custom_entry timeline_marker (marker_data marker);
}

abbrev message : SessionEntry
message = record { id = "a"; timestamp = some 8; kind = message_entry (some answer) }

abbrev session : Session
session = record {
  object = 1;
  session_id = "s";
  history_generation = "g";
  branch = marker_entry ∷ message ∷ [];
  now = 9;
}

abbrev pending : PendingMessage
pending = record {
  message = 1;
  role = assistant;
  marker = marker;
  correlation = unknown_correlation;
  identity = none;
}

abbrev event : TimelineEvent
event = record {
  event_id = "e";
  session_id = "s";
  history_generation = "g";
  timestamp = 8;
  group_id = some "u";
  body = assistant_event (text_block "hello" ∷ []) false;
}

ended_event-recover_example : In event (event ∷ [])
unfolding ended_event entries_after scan_target to_timeline_event assistant_blocks recover marked
    legacy events_of to_system_event
ended_event-recover_example =
    ended_event-recover platform session 20 pending [] (message ∷ []) marker_entry event
      (event ∷ []) refl refl refl tt refl (inr (refl, tt)) refl refl

run_calls-IsDistinct_example : IsDistinct (
    run_calls platform
      (message_start session none "u" "e" (some answer)
        ∷ message_end session (some answer)
        ∷ ended session pending
        ∷ ended session pending
        ∷ [])
      silent)
run_calls-IsDistinct_example = run_calls-IsDistinct platform (
    message_start session none "u" "e" (some answer)
    ∷ message_end session (some answer)
    ∷ ended session pending
    ∷ ended session pending
    ∷ [])

partial_delta_chunks-Pieces_example :
    let delta : Units = 72 ∷ 55357 ∷ 56832 ∷ [] in
    Pieces max_partial_delta_chars delta (partial_delta_chunks delta)
    × (flat_map (λ (c : Units). c) (partial_delta_chunks delta) ≡ delta)
partial_delta_chunks-Pieces_example = partial_delta_chunks-Pieces (72 ∷ 55357 ∷ 56832 ∷ [])
