-- ===== src/Tests/TransferTests.antt =====
-- timeline-transfer.ts: an event in two fragments, under a codec for which every frame is valid.
use remote_pi.Base.{true, false, some, List, [], ◌∷◌}
use remote_pi.Transfer.Types.{
  EventKind, EventStatus, TimelineEvent, TimelineTransferScope, TimelineEventFragmentFrame, Codec,
}
use remote_pi.Transfer.Assembler.{empty}
use remote_pi.Transfer.Accounting.{IsAccounted, accept_all, accept_all-IsAccounted}

abbrev pub sample_scope : TimelineTransferScope
sample_scope = record { session_id = "s"; history_generation = "g" }

abbrev pub sample_event : TimelineEvent
sample_event = record {
  event_id = "e";
  session_id = "s";
  history_generation = "g";
  kind = EventKind.user;
  group_id = some "u";
  timestamp = 5;
  status = EventStatus.committed;
  body = "";
}

abbrev pub sample_codec : Codec
sample_codec = record {
  is_fragment_frame = λ frame. true;
  decode_fragment = λ fragment. some (1 ∷ 2 ∷ []);
  parse_encoded_event = λ bytes. some sample_event;
  is_history_chunk = λ chunk. true;
  is_chunk_size = λ chunk. true;
  parse_event = λ event. some event;
  utf8_length = λ event. 2;
  is_window_size = λ events. true;
}

abbrev sample_frames : List TimelineEventFragmentFrame
sample_frames =
    record {
      session_id = "s";
      history_generation = "g";
      fragment = record { event_id = "e"; index = 1; data_base64 = ""; final = true };
    }
    ∷ record {
      session_id = "s";
      history_generation = "g";
      fragment = record { event_id = "e"; index = 0; data_base64 = ""; final = false };
    }
    ∷ []

accept_all-IsAccounted_example :
    IsAccounted (accept_all sample_codec sample_scope sample_frames empty)
accept_all-IsAccounted_example = accept_all-IsAccounted sample_codec sample_scope sample_frames
