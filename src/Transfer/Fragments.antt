-- ===== src/Transfer/Fragments.antt =====
-- timeline-transfer.ts: `addFragment` and `finishFragment`.
use remote_pi.Base.{
  ℕ, zero, suc, ◌+◌, ◌-◌, String, Bool, false, not, ◌&&◌, ◌||◌, Option, none, some, [], ◌∷◌, ◌++◌,
  ltb, leb, length, any, xor, if◌then◌else◌,
}
use remote_pi.Base.Equality.{◌==◌, nat_eq, string_eq}
use remote_pi.Base.JsMap
use remote_pi.Base.JsMap.{JsMap, keys}
use remote_pi.Transfer.Types.{
  Bytes, TimelineEvent, TimelineTransferScope, HistoryFragment, TransferResult, pending, complete,
  discarded, FragmentEntry, FragmentState, FragmentStates, max_array_items, max_window_bytes, Codec,
  bytes_equal, in_scope,
}

abbrev pub no_fragments : FragmentState
no_fragments = record { entries = []; final_index = none; decoded_bytes = 0 }

abbrev pub or_new : Option FragmentState → FragmentState
or_new none = no_fragments
or_new (some state) = state

-- `discardFragmentState`
abbrev pub discard_state : FragmentStates → String → FragmentStates × Option TransferResult
discard_state states event_id =
    (JsMap.delete states event_id, some (discarded "invalid_fragment_sequence"))

-- `fragment.index > state.finalIndex || fragment.final`, where there is a final index.
abbrev pub past_final : HistoryFragment → Option ℕ → Bool
past_final fragment none = false
past_final fragment (some final_index) = ltb final_index fragment.index || fragment.final

-- `[...entries.keys()].some((index) => index > fragment.index)`
abbrev pub has_later : ℕ → JsMap ℕ FragmentEntry → Bool
has_later index entries = any (λ e. ltb index e.0) entries

abbrev pub mark_final : HistoryFragment → Option ℕ → Option ℕ
mark_final fragment old = if fragment.final then some fragment.index else old

-- `addFragment` where the index is new: the state as it is written back, and the result.
unfoldable pub add_new :
    FragmentStates
    → HistoryFragment
    → Bytes
    → FragmentState
    → FragmentStates × Option TransferResult
add_new states fragment bytes state =
    if leb max_array_items (length state.entries)
    then discard_state states fragment.event_id
    else if past_final fragment state.final_index
    then discard_state states fragment.event_id
    else if fragment.final && has_later fragment.index state.entries
    then discard_state states fragment.event_id
    else if ltb max_window_bytes (state.decoded_bytes + length bytes)
    then discard_state states fragment.event_id
    else (
      JsMap.set states fragment.event_id (record {
        entries =
            JsMap.set state.entries fragment.index
              (record { bytes = bytes; final = fragment.final });
        final_index = mark_final fragment state.final_index;
        decoded_bytes = state.decoded_bytes + length bytes;
      }),
      none,
    )

-- `addFragment` where the index is there: the same fragment again changes nothing.
unfoldable pub add_again :
    FragmentStates
    → HistoryFragment
    → Bytes
    → FragmentEntry
    → FragmentStates × Option TransferResult
add_again states fragment bytes previous =
    if xor previous.final fragment.final || not (bytes_equal previous.bytes bytes)
    then discard_state states fragment.event_id
    else (states, some pending)

add_at :
    FragmentStates
    → HistoryFragment
    → Bytes
    → FragmentState
    → Option FragmentEntry
    → FragmentStates × Option TransferResult
unfolding add_new add_again
add_at states fragment bytes state none = add_new states fragment bytes state
add_at states fragment bytes state (some previous) = add_again states fragment bytes previous

-- `addFragment` after its fragment is decoded.
unfoldable pub add_fragment :
    FragmentStates → HistoryFragment → Bytes → FragmentStates × Option TransferResult
unfolding add_at
add_fragment states fragment bytes =
    let state = or_new (JsMap.get states fragment.event_id) in
    add_at states fragment bytes state (JsMap.get state.entries fragment.index)

abbrev append_entry : Option Bytes → Option FragmentEntry → Option Bytes
append_entry none e = none
append_entry (some before) none = none
append_entry (some before) (some e) = some (before ++ e.bytes)

-- The bytes of the entries 0 to n - 1 in order, if none is missing.
unfoldable pub collect : ℕ → JsMap ℕ FragmentEntry → Option Bytes
collect zero entries = some []
collect (suc n) entries = append_entry (collect n entries) (JsMap.get entries n)

unfoldable pub zeros : ℕ → Bytes
zeros zero = []
zeros (suc n) = 0 ∷ zeros n

module _ (codec : Codec) (scope : TimelineTransferScope) where
  -- What is made of the decoded event.
  unfoldable pub check_event :
      FragmentStates → String → Option TimelineEvent → FragmentStates × TransferResult
  check_event states event_id none =
      (JsMap.delete states event_id, discarded "fragment_event_invalid")
  check_event states event_id (some event) =
      if event.event_id == event_id && in_scope scope event.session_id event.history_generation
      then (JsMap.delete states event_id, complete event)
      else (JsMap.delete states event_id, discarded "fragment_event_scope_mismatch")

  -- `encoded` is a buffer of `decodedBytes` zeros into which the entries are written in order.
  unfoldable pub finish_collected :
      FragmentStates → String → ℕ → Option Bytes → FragmentStates × TransferResult
  unfolding check_event
  finish_collected states event_id decoded_bytes none = (states, pending)
  finish_collected states event_id decoded_bytes (some bytes) =
      check_event states event_id
        (codec.parse_encoded_event (bytes ++ zeros (decoded_bytes - length bytes)))

  unfoldable pub finish_final :
      FragmentStates → String → FragmentState → Option ℕ → FragmentStates × TransferResult
  unfolding finish_collected
  finish_final states event_id state none = (states, pending)
  finish_final states event_id state (some final_index) =
      if final_index + 1 == length state.entries
      then finish_collected states event_id state.decoded_bytes
          (collect (suc final_index) state.entries)
      else (states, pending)

  unfoldable pub finish_state :
      FragmentStates → String → Option FragmentState → FragmentStates × TransferResult
  unfolding finish_final
  finish_state states event_id none = (states, pending)
  finish_state states event_id (some state) = finish_final states event_id state state.final_index

  unfoldable pub finish_fragment : FragmentStates → String → FragmentStates × TransferResult
  unfolding finish_state
  finish_fragment states event_id = finish_state states event_id (JsMap.get states event_id)
