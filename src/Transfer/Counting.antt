-- ===== src/Transfer/Counting.antt =====
-- timeline-transfer.ts: the bytes that the fragments of one event count, and how a fragment changes
-- them.
use remote_pi.Base.{
  ℕ, ◌+◌, ◌≤◌, String, ◌≡◌, refl, inl, inr, false, not, ◌||◌, ◌&&◌, xor, none, some, arith, ltb,
  leb, length, All, if◌then◌else◌, Bool-cases, Option-cases,
}
use remote_pi.Base.Equality.{nat_eq, string_eq}
use remote_pi.Base.JsMap.{get, set, delete, All-set, All-delete, get-set, get-delete, length-set}
use remote_pi.Base.JsMap.Unique.{UniqueKeys, UniqueKeys-set, UniqueKeys-delete, All-get}
use remote_pi.Base.JsMap.Totals.{total, total-set, total-delete}
use remote_pi.Transfer.Types.{
  Bytes, HistoryFragment, discarded, FragmentEntry, FragmentState, FragmentStates, max_array_items,
  max_window_bytes, bytes_equal,
}
use remote_pi.Transfer.Fragments.{add_fragment, add_new, add_again, or_new, past_final, has_later}
use remote_pi.Transfer.Assembler.{bytes_of}

abbrev pub entry_bytes : FragmentEntry → ℕ
entry_bytes e = length e.bytes

abbrev pub state_bytes : FragmentState → ℕ
state_bytes s = s.decoded_bytes

-- A state counts the bytes of its entries, one for each index.
abbrev pub IsCounted : String × FragmentState → Type 0
IsCounted e =
    (e.1.decoded_bytes ≡ total entry_bytes e.1.entries)
    × UniqueKeys e.1.entries
    × (length e.1.entries ≤ max_array_items)
    × (e.1.decoded_bytes ≤ max_window_bytes)

pub record AreCounted (states : FragmentStates) : Type 0 where
  pub unique : UniqueKeys states
  pub counted : All IsCounted states

pub delete-AreCounted :
    (states : FragmentStates) (id : String) → AreCounted states → AreCounted (delete states id)
delete-AreCounted states id h = record {
  unique = UniqueKeys-delete states id h.unique;
  counted = All-delete IsCounted states id h.counted;
}

-- Only the state of one event changes, and the totals by as much.
abbrev pub ChangesAt : String → FragmentStates → FragmentStates → Type 0
ChangesAt id before after =
    total state_bytes after + bytes_of before id ≡ total state_bytes before + bytes_of after id

pub delete-ChangesAt :
    (states : FragmentStates) (id : String)
    → AreCounted states
    → ChangesAt id states (delete states id) × (bytes_of (delete states id) id ≡ 0)
delete-ChangesAt states id h = ground (
  arith,
  total-delete state_bytes states id h.unique,
  get-delete states id id,
  string_eq.same_iff id id,
)

pub set-ChangesAt :
    (states : FragmentStates) (id : String) (s : FragmentState)
    → ChangesAt id states (set states id s)
set-ChangesAt states id s =
    ground
      (arith, total-set state_bytes states id s, get-set states id id s, string_eq.same_iff id id)

pub or_new-IsCounted :
    (states : FragmentStates) (id : String)
    → AreCounted states
    → IsCounted (id, or_new (get states id))
or_new-IsCounted states id h = elim (Option-cases (get states id)) [
  | inl absent ↦ rw absent (refl, tt, omega arith, omega arith)
  | inr (s, found) ↦ rw found (All-get IsCounted states id s h.counted found)
]

abbrev pub KeepsCount : FragmentStates → String → FragmentStates → Type 0
KeepsCount states id after = AreCounted after × ChangesAt id states after

pub discard-KeepsCount :
    (states : FragmentStates) (id : String)
    → AreCounted states
    → KeepsCount states id (delete states id)
discard-KeepsCount states id h = (delete-AreCounted states id h, (delete-ChangesAt states id h).0)

pub add_new-KeepsCount :
    (states : FragmentStates) (fragment : HistoryFragment) (bytes : Bytes) (s : FragmentState)
    → AreCounted states
    → IsCounted (fragment.event_id, s)
    → get s.entries fragment.index ≡ none
    → KeepsCount states fragment.event_id (add_new states fragment bytes s).0
unfolding add_new
add_new-KeepsCount states fragment bytes s h c absent =
    elim (Bool-cases (leb max_array_items (length s.entries))) [
      | inl full ↦ rw full (discard-KeepsCount states _ h)
      | inr room ↦ rw room (elim (Bool-cases (past_final fragment s.final_index)) [
        | inl past ↦ rw past (discard-KeepsCount states _ h)
        | inr early ↦
            rw early (elim (Bool-cases (fragment.final && has_later fragment.index s.entries)) [
              | inl late ↦ rw late (discard-KeepsCount states _ h)
              | inr last ↦
                  rw last
                    (elim (Bool-cases (ltb max_window_bytes (s.decoded_bytes + length bytes))) [
                      | inl big ↦ rw big (discard-KeepsCount states _ h)
                      | inr fits ↦ rw fits (written room fits)
                    ])
            ])
      ])
    ]
  where
    entry : FragmentEntry
    entry = record { bytes = bytes; final = fragment.final }

    written :
        leb max_array_items (length s.entries) ≡ false
        → ltb max_window_bytes (s.decoded_bytes + length bytes) ≡ false
        → KeepsCount states fragment.event_id (
            set states fragment.event_id (record {
              entries = set s.entries fragment.index entry;
              final_index = if fragment.final then some fragment.index else s.final_index;
              decoded_bytes = s.decoded_bytes + length bytes;
            }))
    written room fits = (
      record {
        unique = UniqueKeys-set states _ _ h.unique;
        counted =
            All-set IsCounted states _ _
              (
                ground (arith, c.0, total-set entry_bytes s.entries fragment.index entry, absent),
                UniqueKeys-set s.entries _ _ c.1,
                ground (arith, length-set s.entries fragment.index entry),
                ground arith,
              )
              h.counted;
      },
      set-ChangesAt states _ _,
    )

pub add_again-KeepsCount :
    (states : FragmentStates) (fragment : HistoryFragment) (bytes : Bytes) (e : FragmentEntry)
    → AreCounted states
    → KeepsCount states fragment.event_id (add_again states fragment bytes e).0
unfolding add_again
add_again-KeepsCount states fragment bytes e h =
    elim (Bool-cases (xor e.final fragment.final || not (bytes_equal e.bytes bytes))) [
      | inl differs ↦ rw differs (discard-KeepsCount states _ h)
      | inr equal ↦ rw equal (h, refl)
    ]

pub add_fragment-KeepsCount :
    (states : FragmentStates) (fragment : HistoryFragment) (bytes : Bytes)
    → AreCounted states
    → KeepsCount states fragment.event_id (add_fragment states fragment bytes).0
unfolding add_fragment
add_fragment-KeepsCount states fragment bytes h =
    let s = or_new (get states fragment.event_id) in
    elim (Option-cases (get s.entries fragment.index)) [
      | inl absent ↦ rw absent (
          add_new-KeepsCount states fragment bytes s h (or_new-IsCounted states fragment.event_id h)
            absent)
      | inr (e, found) ↦ rw found (add_again-KeepsCount states fragment bytes e h)
    ]

pub add_fragment_dropped :
    (states : FragmentStates) (fragment : HistoryFragment) (bytes : Bytes) (reason : String)
    → (add_fragment states fragment bytes).1 ≡ some (discarded reason)
    → bytes_of (add_fragment states fragment bytes).0 fragment.event_id ≡ 0
unfolding add_fragment
add_fragment_dropped states fragment bytes reason h = ground (
  arith,
  get-delete states fragment.event_id fragment.event_id,
  string_eq.same_iff fragment.event_id fragment.event_id,
)
