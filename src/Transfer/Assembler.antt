-- ===== src/Transfer/Assembler.antt =====
-- timeline-transfer.ts: `TimelineEventFragmentAssembler`.
use remote_pi.Base.{
  ℕ, ◌+◌, ◌-◌, String, Bool, true, false, not, ◌||◌, Option, none, some, [], ltb, length,
  if◌then◌else◌,
}
use remote_pi.Base.Equality.{nat_eq, string_eq}
use remote_pi.Base.JsMap
use remote_pi.Transfer.Types.{
  Bytes, TimelineTransferScope, TimelineEventFragmentFrame, TransferResult, pending, complete,
  discarded, ignored, FragmentState, FragmentStates, max_array_items, max_window_bytes, Codec,
  in_scope,
}
use remote_pi.Transfer.Fragments.{add_fragment, finish_fragment}

pub record Assembler : Type 0 where
  pub states : FragmentStates
  pub active_bytes : ℕ

abbrev pub empty : Assembler
empty = record { states = []; active_bytes = 0 }

abbrev pub decoded_at : Option FragmentState → ℕ
decoded_at none = 0
decoded_at (some state) = state.decoded_bytes

-- `this.states.get(event_id)?.decodedBytes ?? 0`
abbrev pub bytes_of : FragmentStates → String → ℕ
bytes_of states event_id = decoded_at (JsMap.get states event_id)

-- The state of an event is dropped, and with it its share of the active bytes.
unfoldable pub drop_event : String → Assembler → Assembler × TransferResult
drop_event event_id a = (
  record {
    states = JsMap.delete a.states event_id;
    active_bytes = a.active_bytes - bytes_of a.states event_id;
  },
  discarded "invalid_fragment",
)

abbrev pub releases : TransferResult → Bool
releases (complete event) = true
releases (discarded reason) = true
releases pending = false
releases (ignored reason) = false

abbrev pub settle : ℕ → ℕ → FragmentStates × TransferResult → Assembler × TransferResult
settle active next_bytes finished = (
  record {
    states = finished.0;
    active_bytes = if releases finished.1 then active - next_bytes else active;
  },
  finished.1,
)

module _ (codec : Codec) (scope : TimelineTransferScope) where
  -- An event that is discarded has no bytes left; the others may be complete now.
  unfoldable pub finish :
      String → ℕ → ℕ → FragmentStates → Option TransferResult → Assembler × TransferResult
  finish event_id active next_bytes states (some (discarded reason)) =
      (record { states = states; active_bytes = active - next_bytes }, discarded reason)
  finish event_id active next_bytes states _ =
      settle active next_bytes (finish_fragment codec scope states event_id)

  -- `accept` after the fragment is added: `previous_bytes` is what the event had before.
  unfoldable pub account :
      String → ℕ → ℕ → FragmentStates × Option TransferResult → Assembler × TransferResult
  account event_id active_bytes previous_bytes added =
      let next_bytes = bytes_of added.0 event_id in
      let active = active_bytes + next_bytes - previous_bytes in
      if ltb max_array_items (length added.0) || ltb max_window_bytes active
      then (empty, discarded "fragment_window_too_large")
      else finish event_id active next_bytes added.0 added.1

  accept_decoded :
      TimelineEventFragmentFrame → Option Bytes → Assembler → Assembler × TransferResult
  unfolding account finish
  accept_decoded frame none a = drop_event frame.fragment.event_id a
  accept_decoded frame (some bytes) a =
      account frame.fragment.event_id a.active_bytes (bytes_of a.states frame.fragment.event_id)
        (add_fragment a.states frame.fragment bytes)

  unfoldable pub accept : TimelineEventFragmentFrame → Assembler → Assembler × TransferResult
  unfolding accept_decoded
  accept frame a =
      if not (in_scope scope frame.session_id frame.history_generation)
      then (empty, discarded "fragment_scope_mismatch")
      else if not (codec.is_fragment_frame frame)
      then drop_event frame.fragment.event_id a
      else accept_decoded frame (codec.decode_fragment frame.fragment) a
