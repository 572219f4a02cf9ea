-- ===== src/Transfer/Chunks.antt =====
-- timeline-transfer.ts: the data of `HistoryWindowAssembler`, and the tests on a chunk. Whatever is
-- thrown or discarded ends in `discard`, which clears everything, so a step of `accept` returns the
-- window or the reason.
use remote_pi.Base.{
  ℕ, zero, suc, ◌+◌, String, Bool, true, false, not, ◌&&◌, ◌||◌, Option, none, some, List, [], ◌∷◌,
  ◌++◌, map, any, filter, length, ltb, leb, if◌then◌else◌,
}
use remote_pi.Base.Equality.{◌==◌, nat_eq, string_eq}
use remote_pi.Base.JsMap
use remote_pi.Base.JsMap.{JsMap, values}
use remote_pi.Transfer.Types.{
  TimelineEvent, TimelineTransferScope, HistoryChunkFrame, FragmentStates, in_scope,
}

pub data HistoryWindowResult : Type 0 where
  pending_window : HistoryWindowResult
  complete_window : List TimelineEvent → Bool → Option String → HistoryWindowResult
  discarded_window ignored_window : String → HistoryWindowResult

pub data WindowState : Type 0 where
  open_window closed_complete closed_discarded : WindowState

pub record HistoryScope : Type 0 where
  pub session : TimelineTransferScope
  pub snapshot_head : String

pub record FinalTail : Type 0 where
  pub index : ℕ
  pub eos : Bool
  pub next_before : Option String

pub record Window : Type 0 where
  pub chunks : JsMap ℕ HistoryChunkFrame
  pub fragment_states : FragmentStates
  pub complete_events : JsMap String TimelineEvent
  pub formal_event_ids : List String
  pub scope : Option HistoryScope
  pub total_decoded_bytes : ℕ
  pub final_tail : Option FinalTail
  pub state : WindowState

pub data Checked {ℓ} (A : Type ℓ) : Type ℓ where
  ok : A → Checked A
  fail : String → Checked A

infixl 5 ◌>>=◌ ◌>>◌
unfoldable pub ◌>>=◌ {ℓ κ} : {A : Type ℓ} {B : Type κ} → Checked A → (A → Checked B) → Checked B
ok a >>= f = f a
fail reason >>= f = fail reason

abbrev pub ◌>>◌ {ℓ} : {B : Type ℓ} → Checked (Unit {0}) → Checked B → Checked B
m >> k = m >>= λ _. k

-- `if (bad) return this.discard(reason)`
unfoldable pub discard_if : Bool → String → Checked (Unit {0})
discard_if true reason = fail reason
discard_if false reason = ok tt

unfoldable pub or_fail {ℓ} : {A : Type ℓ} → Option A → String → Checked A
or_fail none reason = fail reason
or_fail (some a) reason = ok a

unfoldable pub cleared : WindowState → Window
cleared state = record {
  chunks = [];
  fragment_states = [];
  complete_events = [];
  formal_event_ids = [];
  scope = none;
  total_decoded_bytes = 0;
  final_tail = none;
  state = state;
}

abbrev pub session_of : HistoryChunkFrame → TimelineTransferScope
session_of f = record { session_id = f.session_id; history_generation = f.history_generation }

abbrev pub same_session : TimelineTransferScope → TimelineTransferScope → Bool
same_session a b = in_scope b a.session_id a.history_generation

abbrev pub expects : Option TimelineTransferScope → HistoryChunkFrame → Bool
expects none f = true
expects (some expected) f = same_session (session_of f) expected

-- The first chunk fixes the scope; the others must agree with it.
unfoldable pub bind_scope : Option HistoryScope → HistoryChunkFrame → Checked HistoryScope
bind_scope none f = ok (record { session = session_of f; snapshot_head = f.snapshot_head })
bind_scope (some scope) f =
    if not (same_session (session_of f) scope.session)
      || (not (scope.snapshot_head == "") && not (f.snapshot_head == scope.snapshot_head))
    then fail "history_scope_mismatch"
    else ok scope

abbrev pub past_tail : Option FinalTail → HistoryChunkFrame → Bool
past_tail none f = false
past_tail (some tail) f = ltb tail.index f.chunk_index || f.final_chunk

unfoldable pub tail_after : Option FinalTail → HistoryChunkFrame → Option FinalTail
tail_after old f =
    if f.final_chunk
    then some (record {
      index = f.chunk_index;
      eos = f.eos;
      next_before = if f.eos then none else f.next_before;
    })
    else old

-- No chunk 0 to n - 1 is missing.
unfoldable pub has_all : ℕ → JsMap ℕ HistoryChunkFrame → Bool
has_all zero chunks = true
has_all (suc n) chunks = JsMap.has chunks n && has_all n chunks

unfoldable pub is_contiguous : JsMap ℕ HistoryChunkFrame → ℕ → Bool
unfolding has_all
is_contiguous chunks final_index =
    final_index + 1 == length chunks && has_all (suc final_index) chunks

-- `Set.has`
abbrev pub member : String → List String → Bool
member id ids = any (λ i. i == id) ids

pub insert_chunk :
    ℕ × HistoryChunkFrame → List (ℕ × HistoryChunkFrame) → List (ℕ × HistoryChunkFrame)
insert_chunk c [] = c ∷ []
insert_chunk c (d ∷ chunks) =
    let rest = insert_chunk c chunks in if leb c.0 d.0 then c ∷ d ∷ chunks else d ∷ rest

-- `sort(([left], [right]) => left - right)`
unfoldable pub sort_chunks : List (ℕ × HistoryChunkFrame) → List (ℕ × HistoryChunkFrame)
sort_chunks [] = []
sort_chunks (c ∷ chunks) = insert_chunk c (sort_chunks chunks)

-- `completeEvents.get(event.event_id)!`: an event that is missing is left out.
unfoldable pub resolve_events : JsMap String TimelineEvent → List TimelineEvent → List TimelineEvent
resolve_events complete_events [] = []
resolve_events complete_events (e ∷ events) =
    let rest = resolve_events complete_events events in
    elim (JsMap.get complete_events e.event_id) [ none ↦ rest | some found ↦ found ∷ rest ]

unfoldable pub resolve_chunks :
    JsMap String TimelineEvent → List (ℕ × HistoryChunkFrame) → List TimelineEvent
resolve_chunks complete_events [] = []
resolve_chunks complete_events (c ∷ chunks) =
    resolve_events complete_events (c.1.events) ++ resolve_chunks complete_events chunks

-- The events of `completeWindow`: those of the chunks in order, then those made of fragments.
unfoldable pub window_events : Window → List TimelineEvent
unfolding insert_chunk sort_chunks resolve_events resolve_chunks
window_events w =
    let events = resolve_chunks w.complete_events (sort_chunks w.chunks) in
    let ids = map (λ (e : TimelineEvent). e.event_id) events in
    events ++ filter (λ e. not (member e.event_id ids)) (values w.complete_events)
