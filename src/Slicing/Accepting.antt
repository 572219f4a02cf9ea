-- ===== src/Slicing/Accepting.antt =====
-- timeline-transfer.ts: a fragment that is next in order, in the assembler.
use remote_pi.Base.{
  ℕ, ◌+◌, ◌-◌, ◌≤◌, ◌<◌, String, ◌≡◌, refl, true, false, Option, none, some, List, [], ◌∷◌, ◌++◌,
  arith, length, if◌then◌else◌,
}
use remote_pi.Base.Equality.{==_self, nat_eq, string_eq}
use remote_pi.Base.JsMap.{get, set, has, get-set, length-set}
use remote_pi.Transfer.Types.{
  Bytes, TimelineEvent, TimelineTransferScope, HistoryFragment, TimelineEventFragmentFrame,
  TransferResult, pending, complete, FragmentState, max_array_items, max_window_bytes, Codec,
}
use remote_pi.Transfer.Fragments.{or_new, finish_fragment}
use remote_pi.Transfer.Assembler.{Assembler, accept, account, finish, decoded_at}
use remote_pi.Slicing.{max_fragment_decode_bytes}
use remote_pi.Slicing.Received.{Partial, next_state, add_fragment_next}

-- The broadcast frame of a fragment.
abbrev pub frame_of : TimelineTransferScope → HistoryFragment → TimelineEventFragmentFrame
frame_of scope f = record {
  session_id = scope.session_id;
  history_generation = scope.history_generation;
  fragment = f;
}

-- A fragment of the event with some of its bytes, not too many.
abbrev pub Carries : (Bytes → String) → String → Bytes → HistoryFragment → Bytes → Type 0
Carries to_base64 event_id encoded f b =
    (f.event_id ≡ event_id)
    × (f.data_base64 ≡ to_base64 b)
    × (0 < length b)
    × (length b ≤ max_fragment_decode_bytes)
    × (f.index < max_array_items)
    × (before : Bytes) × (after : Bytes) × (before ++ (b ++ after) ≡ encoded)

-- What the codec and base64 do: the schema accepts the fragments of the event, base64 decodes what
-- it has encoded, and the event is parsed from its encoding.
pub record Faithful (codec : Codec) (to_base64 : Bytes → String) (scope : TimelineTransferScope)
    (event : TimelineEvent) (encoded : Bytes) : Type 0 where
  pub accepts :
      (f : HistoryFragment) (b : Bytes)
      → Carries to_base64 event.event_id encoded f b
      → codec.is_fragment_frame (frame_of scope f) ≡ true
  pub decodes :
      (f : HistoryFragment) (b : Bytes)
      → Carries to_base64 event.event_id encoded f b
      → codec.decode_fragment f ≡ some b
  pub parses : codec.parse_encoded_event encoded ≡ some event
  pub same_session : event.session_id ≡ scope.session_id
  pub same_generation : event.history_generation ≡ scope.history_generation

-- The fragments 0 to n - 1 of the event are there, and there is room for the others.
pub record Ready (id : String) (n : ℕ) (done : Bytes) (a : Assembler) : Type 0 where
  pub partial : Partial n done (or_new (get a.states id))
  pub slots : (if has a.states id then length a.states else length a.states + 1) ≤ max_array_items

pub decoded_at-or_new :
    (o : Option FragmentState) (n : ℕ) (done : Bytes)
    → Partial n done (or_new o)
    → decoded_at o ≡ length done
decoded_at-or_new none n done p = p.size
decoded_at-or_new (some st) n done p = p.size

abbrev pub with_fragment : HistoryFragment → Bytes → Assembler → Assembler
with_fragment f b a = record {
  states = set a.states f.event_id (next_state f b (or_new (get a.states f.event_id)));
  active_bytes = a.active_bytes + length b;
}

module _ (codec : Codec) (scope : TimelineTransferScope) where
  -- `accept` of a fragment that is next in order: it is stored, and its event may be complete.
  pub accept_next :
      (f : HistoryFragment) (b done : Bytes) (a : Assembler)
      → Ready f.event_id f.index done a
      → codec.is_fragment_frame (frame_of scope f) ≡ true
      → codec.decode_fragment f ≡ some b
      → f.index < max_array_items
      → a.active_bytes + length b ≤ max_window_bytes
      → length done + length b ≤ max_window_bytes
      → let a' = with_fragment f b a in
        accept codec scope (frame_of scope f) a
        ≡ finish codec scope f.event_id a'.active_bytes (length done + length b) a'.states none
  unfolding accept account
  accept_next f b done a r valid decoded few room small =
      rw
        (
          ==_self scope.session_id,
          ==_self scope.history_generation,
          valid,
          decoded,
          add_fragment_next a.states f b done r.partial few small,
        )
        (rw
          (
            get-set a.states f.event_id f.event_id
                (next_state f b (or_new (get a.states f.event_id))),
            ==_self f.event_id,
            decoded_at-or_new (get a.states f.event_id) f.index done r.partial,
            length-set a.states f.event_id (next_state f b (or_new (get a.states f.event_id))),
            r.partial.size,
          )
          (let counted : a.active_bytes + (length done + length b) - length done
                ≡ a.active_bytes + length b =
              omega arith in
            rw counted (ground (arith, r.slots))))

  -- A fragment that is not the last.
  pub finish_middle :
      (f : HistoryFragment) (b : Bytes) (n : ℕ) (a : Assembler)
      → f.final ≡ false
      → (or_new (get a.states f.event_id)).final_index ≡ none
      → let a' = with_fragment f b a in
        finish codec scope f.event_id a'.active_bytes n a'.states none ≡ (a', pending)
  unfolding finish finish_fragment
  finish_middle f b n a middle open_end =
      rw
        (
          get-set a.states f.event_id f.event_id
              (next_state f b (or_new (get a.states f.event_id))),
          ==_self f.event_id,
          middle,
          open_end,
        )
        refl

  -- The assembler after some fragments of the scope, and its results.
  unfoldable pub accept_results : List HistoryFragment → Assembler → Assembler × List TransferResult
  accept_results [] a = (a, [])
  accept_results (f ∷ fragments) a =
      let (a', result) = accept codec scope (frame_of scope f) a in
      let (a'', results) = accept_results fragments a' in (a'', result ∷ results)

-- Every fragment is pending but the last, which completes the event.
abbrev pub outcomes : TimelineEvent → List HistoryFragment → List TransferResult
outcomes event [] = []
outcomes event (f ∷ []) = complete event ∷ []
outcomes event (f ∷ g ∷ fragments) = pending ∷ outcomes event (g ∷ fragments)
