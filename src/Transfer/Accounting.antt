-- ===== src/Transfer/Accounting.antt =====
-- timeline-transfer.ts: the byte accounting of the event assembler, whatever frames arrive.
use remote_pi.Base.{
  ℕ, ◌+◌, ◌-◌, ◌≤◌, String, ◌≡◌, refl, inl, inr, ◌⊎◌, true, false, ◌||◌, Option, none, some, List,
  [], ◌∷◌, arith, ltb, length, if◌then◌else◌, Bool-cases, Option-cases,
}
use remote_pi.Base.Equality.{nat_eq, string_eq}
use remote_pi.Base.JsMap.{delete, length-delete-le}
use remote_pi.Base.JsMap.Totals.{total}
use remote_pi.Transfer.Types.{
  TimelineTransferScope, TimelineEventFragmentFrame, TransferResult, discarded, FragmentStates,
  max_array_items, max_window_bytes, Codec, in_scope,
}
use remote_pi.Transfer.Fragments.{finish_fragment}
use remote_pi.Transfer.Assembler.{
  Assembler, empty, accept, account, finish, drop_event, bytes_of, releases,
}
use remote_pi.Transfer.Counting.{
  state_bytes, AreCounted, delete-AreCounted, delete-ChangesAt, KeepsCount, add_fragment-KeepsCount,
  add_fragment_dropped,
}

module _ (codec : Codec) (scope : TimelineTransferScope) where
  -- The state of an event is dropped exactly when its event is complete or discarded.
  finish_fragment_drops :
      (states : FragmentStates) (id : String)
      → let (after, result) = finish_fragment codec scope states id in
        ((after ≡ states) × (releases result ≡ false))
        ⊎ ((after ≡ delete states id) × (releases result ≡ true))
  unfolding finish_fragment
  finish_fragment_drops states id = ground arith

pub record IsAccounted (a : Assembler) : Type 0 where
  pub states_counted : AreCounted a.states
  pub exact : a.active_bytes ≡ total state_bytes a.states
  pub bounded : a.active_bytes ≤ max_window_bytes
  pub few : length a.states ≤ max_array_items

empty-IsAccounted : IsAccounted empty
empty-IsAccounted = record {
  states_counted = record { unique = tt; counted = tt };
  exact = refl;
  bounded = omega arith;
  few = omega arith;
}

drop_event-IsAccounted :
    (id : String) (a : Assembler) → IsAccounted a → IsAccounted (drop_event id a).0
unfolding drop_event
drop_event-IsAccounted id a h = record {
  states_counted = delete-AreCounted a.states id h.states_counted;
  exact = ground (arith, delete-ChangesAt a.states id h.states_counted, h.exact);
  bounded = omega (arith, h.bounded);
  few = omega (arith, h.few, length-delete-le a.states id);
}

module _ (codec : Codec) (scope : TimelineTransferScope) where
  -- What `finishFragment` leaves, where `active` counts the states before it.
  settled-IsAccounted :
      (after : FragmentStates) (id : String) (active : ℕ)
      → AreCounted after
      → active ≡ total state_bytes after
      → active ≤ max_window_bytes
      → length after ≤ max_array_items
      → let (states, result) = finish_fragment codec scope after id in
        IsAccounted (record {
          states = states;
          active_bytes = if releases result then active - bytes_of after id else active;
        })
  unfolding drop_event
  settled-IsAccounted after id active c exact bounded few =
      elim (finish_fragment_drops codec scope after id) [
        | inl (same, waits) ↦
            rw (same, waits)
              (record { states_counted = c; exact = exact; bounded = bounded; few = few })
        | inr (dropped, done) ↦
            rw (dropped, done)
              (drop_event-IsAccounted id (record { states = after; active_bytes = active })
                (record { states_counted = c; exact = exact; bounded = bounded; few = few }))
      ]

  finish-IsAccounted :
      (after : FragmentStates) (result : Option TransferResult) (id : String) (active : ℕ)
      → AreCounted after
      → ((reason : String) → result ≡ some (discarded reason) → bytes_of after id ≡ 0)
      → active ≡ total state_bytes after
      → active ≤ max_window_bytes
      → length after ≤ max_array_items
      → IsAccounted (finish codec scope id active (bytes_of after id) after result).0
  unfolding finish
  finish-IsAccounted after none id active c dropped exact bounded few =
      settled-IsAccounted after id active c exact bounded few
  finish-IsAccounted after (some (discarded reason)) id active c dropped exact bounded few =
      record {
        states_counted = c;
        exact = omega (arith, exact, dropped reason refl);
        bounded = omega (arith, bounded);
        few = few;
      }
  finish-IsAccounted after (some _) id active c dropped exact bounded few =
      settled-IsAccounted after id active c exact bounded few

  account-IsAccounted :
      (states after : FragmentStates) (result : Option TransferResult) (id : String) (active : ℕ)
      → active ≡ total state_bytes states
      → KeepsCount states id after
      → ((reason : String) → result ≡ some (discarded reason) → bytes_of after id ≡ 0)
      → IsAccounted (account codec scope id active (bytes_of states id) (after, result)).0
  unfolding account
  account-IsAccounted states after result id a exact k dropped =
      let active = a + bytes_of after id - bytes_of states id in
      elim (Bool-cases (ltb max_array_items (length after) || ltb max_window_bytes active)) [
        | inl over ↦ rw over empty-IsAccounted
        | inr fits ↦ rw fits (
            finish-IsAccounted after result id active k.0 dropped (omega (arith, k.1, exact))
              (ground arith) (ground arith))
      ]

  accept-IsAccounted :
      (frame : TimelineEventFragmentFrame) (a : Assembler)
      → IsAccounted a
      → IsAccounted (accept codec scope frame a).0
  unfolding accept
  accept-IsAccounted frame a h =
      let id = frame.fragment.event_id in
      elim (Bool-cases (in_scope scope frame.session_id frame.history_generation)) [
        | inr foreign ↦ rw foreign empty-IsAccounted
        | inl ours ↦ rw ours (elim (Bool-cases (codec.is_fragment_frame frame)) [
          | inr bad ↦ rw bad (drop_event-IsAccounted id a h)
          | inl good ↦ rw good (elim (Option-cases (codec.decode_fragment frame.fragment)) [
            | inl undecoded ↦ rw undecoded (drop_event-IsAccounted id a h)
            | inr (bytes, decoded) ↦ rw decoded (
                account-IsAccounted a.states _ _ id a.active_bytes h.exact
                  (add_fragment-KeepsCount a.states frame.fragment bytes h.states_counted)
                  (add_fragment_dropped a.states frame.fragment bytes))
          ])
        ])
      ]

  abbrev pub accept_all : List TimelineEventFragmentFrame → Assembler → Assembler
  accept_all [] a = a
  accept_all (frame ∷ frames) a = accept_all frames (accept codec scope frame a).0

  accept_all_from-IsAccounted :
      (frames : List TimelineEventFragmentFrame) (a : Assembler)
      → IsAccounted a
      → IsAccounted (accept_all frames a)
  accept_all_from-IsAccounted [] a h = h
  accept_all_from-IsAccounted (frame ∷ frames) a h =
      accept_all_from-IsAccounted frames (accept codec scope frame a).0
        (accept-IsAccounted frame a h)

  -- Whatever frames a new assembler is given, malformed ones included: its active bytes are exactly
  -- the bytes of the fragments that it holds, one for each index of each event, they never pass the
  -- window's limit, and neither the events under way nor the fragments of one pass 4096.
  pub accept_all-IsAccounted :
      (frames : List TimelineEventFragmentFrame) → IsAccounted (accept_all frames empty)
  accept_all-IsAccounted frames = accept_all_from-IsAccounted frames empty empty-IsAccounted
