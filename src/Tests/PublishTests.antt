-- ===== src/Tests/PublishTests.antt =====
-- v2_service.ts and timeline-transfer.ts: an event of one byte that is too large for its frame, and an
-- assembler that has nothing.
use remote_pi.Base.{true, some, [], ◌∷◌}
use remote_pi.Base.Equality.{string_eq}
use remote_pi.Transfer.Types.{Codec}
use remote_pi.Service.Publish.{Encoder}
use remote_pi.Tests.TransferTests.{sample_event}

abbrev one_byte : Codec
one_byte = record {
  is_fragment_frame = λ frame. true;
  decode_fragment = λ fragment. some (7 ∷ []);
  parse_encoded_event = λ bytes. some sample_event;
  is_history_chunk = λ chunk. true;
  is_chunk_size = λ chunk. true;
  parse_event = λ event. some event;
  utf8_length = λ event. 1;
  is_window_size = λ events. true;
}

abbrev encoder : Encoder
encoder = record {
  parse = λ event. some event;
  frame_bytes = λ event. 3000000;
  encode = λ event. 7 ∷ [];
  to_base64 = λ bytes. "Bw==";
}
