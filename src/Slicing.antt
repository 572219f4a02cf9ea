-- ===== src/Slicing.antt =====
-- The loop that cuts an encoded event into fragments. It stands twice in the extension: in
-- pi-extension/src/timeline/v2_service.ts, `publishFrames`, and in
-- pi-extension/src/timeline/history.ts, `fragmentWindow`. `rest` is what is left from `offset` on.
pub mod Received
pub mod Accepting
pub mod RoundTrip
use remote_pi.Base.{ℕ, zero, suc, ◌+◌, String, List, [], ◌∷◌, length, leb, take, drop}
use remote_pi.Transfer.Types.{Bytes, HistoryFragment}

abbrev pub max_fragment_decode_bytes : ℕ
max_fragment_decode_bytes = 51200

-- `Buffer.from(slice).toString("base64")` is a parameter. `offset + slice.byteLength >= byteLength`
-- holds where the slice is all that is left. The fuel is a bound on the rounds, `size` the constant.
unfoldable pub slice_fragments :
    (Bytes → String) → ℕ → String → ℕ → ℕ → Bytes → List HistoryFragment
slice_fragments to_base64 size event_id zero index rest = []
slice_fragments to_base64 size event_id (suc fuel) index [] = []
slice_fragments to_base64 size event_id (suc fuel) index (b ∷ rest) =
    let slice = take size (b ∷ rest) in
    record {
      event_id = event_id;
      index = index;
      data_base64 = to_base64 slice;
      final = leb (length (b ∷ rest)) (length slice);
    }
    ∷ slice_fragments to_base64 size event_id fuel (index + 1) (drop size (b ∷ rest))

-- An event has no more fragments than bytes, so that is fuel enough.
unfoldable pub event_fragments : (Bytes → String) → String → Bytes → List HistoryFragment
event_fragments to_base64 event_id encoded =
    slice_fragments to_base64 max_fragment_decode_bytes event_id (length encoded) 0 encoded
