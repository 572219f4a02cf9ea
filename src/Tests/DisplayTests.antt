-- ===== src/Tests/DisplayTests.antt =====
-- stream-display-buffer.ts: a stream of four graphemes, two of them displayed.
use remote_pi.Base.{◌+◌, ◌≤◌, ◌<◌, ◌≡◌, true, some, none, [], ◌∷◌, arith}
use remote_pi.Display.Types.{assistant_partial}
use remote_pi.Display.Streams.{StreamState, advance_stream, join_first}
use remote_pi.Display.Draining.{backlog, advance_times, advance_times_drains, advance_stream_paced}

abbrev four_letters : StreamState
four_letters = record {
  partial = record {
    partial = record {
      partial_id = "p";
      group_id = some "g";
      kind = assistant_partial;
      blocks = none;
      delta = some (97 ∷ 98 ∷ 99 ∷ 100 ∷ []);
    };
    created_at = 0;
  };
  target_text = 97 ∷ 98 ∷ 99 ∷ 100 ∷ [];
  target_graphemes = (97 ∷ []) ∷ (98 ∷ []) ∷ (99 ∷ []) ∷ (100 ∷ []) ∷ [];
  visible_count = 2;
  visible_text = 97 ∷ 98 ∷ [];
  ticks = 0;
  seen = true;
}

advance_times_drains_example : backlog (advance_times 8 four_letters) ≡ 0
advance_times_drains_example = advance_times_drains 8 four_letters (omega arith) (omega arith)

advance_stream_paced_example :
    let s' = (advance_stream four_letters).0 in
    (2 < s'.visible_count)
    × (s'.visible_count ≤ 2 + 64)
    × (s'.visible_count ≤ 4)
    × (s'.visible_text ≡ join_first s'.visible_count four_letters.target_graphemes)
advance_stream_paced_example = advance_stream_paced four_letters (omega arith)
