-- ===== src/Transfer/Scoped.antt =====
-- timeline-transfer.ts: the events of a completed window are of the expected session.
use mathlib.Core.Path.{subst}
use remote_pi.Base.{
  ℕ, String, ◌≡◌, refl, inl, inr, Bool, true, not, ◌&&◌, ◌||◌, Option, none, some, List, [], ◌∷◌,
  arith, All, length, ltb, suc, ◌+◌, Bool-cases,
}
use remote_pi.Base.Equality.{◌==◌, string_eq, nat_eq}
use remote_pi.Base.JsMap
use remote_pi.Base.JsMap.{JsMap, values, All-set}
use remote_pi.Transfer.Types.{
  TimelineEvent, TimelineTransferScope, HistoryFragment, HistoryChunkFrame, TransferResult, pending,
  Bytes, FragmentState, complete, discarded, ignored, FragmentStates, Codec, in_scope,
}
use remote_pi.Transfer.Fragments.{
  finish_fragment, finish_state, finish_final, finish_collected, check_event, collect,
}
use remote_pi.Transfer.Chunks.{
  HistoryWindowResult, complete_window, HistoryScope, FinalTail, WindowState, open_window,
  closed_complete, closed_discarded, is_contiguous, Window, Checked, ok, fail, session_of,
  same_session, bind_scope, cleared,
}
use remote_pi.Transfer.Window.{
  add_event, add_events, finished_result, add_window_fragment, add_fragments, complete_with,
  complete_if, accept_chunk, settled, accept_state, accept,
}
use remote_pi.Transfer.Checking.{
  Holds, Holds-bind, Holds-discard_if, Holds-or_fail, Holds-any, Holds-unless, InScope,
  ResultInScope, in_scope_trans, IsScoped, window_events-InScope,
}

module _ (codec : Codec) (scope : TimelineTransferScope) where
  check_event-InScope :
      (own : TimelineTransferScope) (states : FragmentStates) (id : String)
      (event : Option TimelineEvent)
      → same_session own scope ≡ true
      → ResultInScope scope (check_event codec own states id event).1
  unfolding check_event
  check_event-InScope own states id none same = tt
  check_event-InScope own states id (some event) same =
      elim (Bool-cases
        (event.event_id == id && in_scope own event.session_id event.history_generation)) [
          | inl good ↦ rw good (
              in_scope_trans own scope event.session_id event.history_generation same
                (ground arith))
          | inr bad ↦ rw bad tt
        ]

  add_event-IsScoped :
      (own : TimelineTransferScope) (value : TimelineEvent) (w : Window)
      → same_session own scope ≡ true
      → IsScoped scope w
      → Holds (IsScoped scope) (add_event codec own value w)
  unfolding add_event
  add_event-IsScoped own value w same h = Holds-or_fail _ (codec.parse_event value) _ _ (λ event.
      Holds-discard_if _ _ _ _ (λ good. record {
        held =
            All-set _ w.complete_events event.event_id event
              (in_scope_trans own scope event.session_id event.history_generation same
                (ground arith))
              h.held;
        bound = h.bound;
      }))

  add_events-IsScoped :
      (own : TimelineTransferScope) (events : List TimelineEvent) (w : Window)
      → same_session own scope ≡ true
      → IsScoped scope w
      → Holds (IsScoped scope) (add_events codec own events w)
  unfolding add_events
  add_events-IsScoped own [] w same h = h
  add_events-IsScoped own (e ∷ events) w same h =
      Holds-bind _ _ _ _ (add_event-IsScoped own e w same h)
        (λ w'. λ h'. add_events-IsScoped own events w' same h')

  finish_collected-InScope :
      (own : TimelineTransferScope) (states : FragmentStates) (id : String) (n : ℕ)
      (bytes : Option Bytes)
      → same_session own scope ≡ true
      → ResultInScope scope (finish_collected codec own states id n bytes).1
  unfolding finish_collected
  finish_collected-InScope own states id n none same = tt
  finish_collected-InScope own states id n (some bytes) same =
      check_event-InScope own states id _ same

  finish_final-InScope :
      (own : TimelineTransferScope) (states : FragmentStates) (id : String) (state : FragmentState)
      (final_index : Option ℕ)
      → same_session own scope ≡ true
      → ResultInScope scope (finish_final codec own states id state final_index).1
  unfolding finish_final
  finish_final-InScope own states id state none same = tt
  finish_final-InScope own states id state (some n) same =
      elim (Bool-cases (n + 1 == length state.entries)) [
        | inl full ↦ rw full (
            finish_collected-InScope own states id state.decoded_bytes
              (collect (suc n) state.entries) same)
        | inr partial ↦ rw partial tt
      ]

  finish_state-InScope :
      (own : TimelineTransferScope) (states : FragmentStates) (id : String)
      (state : Option FragmentState)
      → same_session own scope ≡ true
      → ResultInScope scope (finish_state codec own states id state).1
  unfolding finish_state
  finish_state-InScope own states id none same = tt
  finish_state-InScope own states id (some state) same =
      finish_final-InScope own states id state state.final_index same

  finished_result-IsScoped :
      (w : Window) (states : FragmentStates) (result : TransferResult)
      → ResultInScope scope result
      → IsScoped scope w
      → Holds (IsScoped scope) (finished_result codec w (states, result))
  unfolding finished_result
  finished_result-IsScoped w states (discarded reason) r h = tt
  finished_result-IsScoped w states (complete event) r h =
      elim (Bool-cases (JsMap.has w.complete_events event.event_id)) [
        | inl twice ↦ rw twice tt
        | inr once ↦ rw once (record {
          held = All-set _ w.complete_events event.event_id event r h.held;
          bound = h.bound;
        })
      ]
  finished_result-IsScoped w states pending r h = record { held = h.held; bound = h.bound }
  finished_result-IsScoped w states (ignored reason) r h = record { held = h.held; bound = h.bound }

  add_window_fragment-IsScoped :
      (own : TimelineTransferScope) (f : HistoryFragment) (w : Window)
      → same_session own scope ≡ true
      → IsScoped scope w
      → Holds (IsScoped scope) (add_window_fragment codec own f w)
  unfolding add_window_fragment finish_fragment
  add_window_fragment-IsScoped own f w same h = Holds-discard_if _ _ _ _ (λ fresh.
      Holds-or_fail _ _ _ _ (λ bytes.
        Holds-bind (λ states. Unit) _ _ _ (Holds-any _)
          (λ states. λ t.
            finished_result-IsScoped w _ _
              (finish_state-InScope own states f.event_id (JsMap.get states f.event_id) same) h)))

  add_fragments-IsScoped :
      (own : TimelineTransferScope) (fragments : List HistoryFragment) (w : Window)
      → same_session own scope ≡ true
      → IsScoped scope w
      → Holds (IsScoped scope) (add_fragments codec own fragments w)
  unfolding add_fragments
  add_fragments-IsScoped own [] w same h = h
  add_fragments-IsScoped own (f ∷ fragments) w same h =
      Holds-bind _ _ _ _ (add_window_fragment-IsScoped own f w same h)
        (λ w'. λ h'. add_fragments-IsScoped own fragments w' same h')

  bind_scope-InScope :
      (own : Option HistoryScope) (f : HistoryChunkFrame)
      → same_session (session_of f) scope ≡ true
      → ((s : HistoryScope) → own ≡ some s → same_session s.session scope ≡ true)
      → Holds (λ s. same_session s.session scope ≡ true) (bind_scope own f)
  unfolding bind_scope
  bind_scope-InScope none f same bound = same
  bind_scope-InScope (some s) f same bound =
      Holds-unless (λ own. same_session own.session scope ≡ true)
        (not (same_session (session_of f) s.session)
          || (not (s.snapshot_head == "") && not (f.snapshot_head == s.snapshot_head)))
        "history_scope_mismatch" s (bound s refl)

  abbrev ReplyInScope : HistoryWindowResult → Type 0
  ReplyInScope (complete_window events eos next_before) = All (InScope scope) events
  ReplyInScope _ = Unit

  abbrev StepScoped : Window × HistoryWindowResult → Type 0
  StepScoped r = IsScoped scope r.0 × ReplyInScope r.1

  complete_if-Scoped :
      (tail : Option FinalTail) (w : Window)
      → IsScoped scope w
      → Holds StepScoped (complete_if codec tail w)
  unfolding complete_if complete_with
  complete_if-Scoped none w h = (h, tt)
  complete_if-Scoped (some tail) w h =
      elim (Bool-cases
        (not (is_contiguous w.chunks tail.index) || ltb 0 (length w.fragment_states))) [
          | inl waits ↦ rw waits (h, tt)
          | inr done ↦ rw done (
              Holds-discard_if _ _ _ _ (λ sized.
                (record { held = h.held; bound = h.bound }, window_events-InScope scope w h.held)))
        ]

  accept_chunk-Scoped :
      (f : HistoryChunkFrame) (w : Window)
      → IsScoped scope w
      → Holds StepScoped (accept_chunk codec (some scope) f w)
  unfolding accept_chunk
  accept_chunk-Scoped f w h = Holds-discard_if _ _ _ _ (λ parsed. Holds-discard_if _ _ _ _ (λ sized.
      Holds-discard_if _ _ _ _ (λ expected.
        Holds-bind _ _ _ _ (bind_scope-InScope w.scope f (ground (arith, expected)) h.bound) (λ own.
          λ same. Holds-discard_if _ _ _ _ (λ fresh. Holds-discard_if _ _ _ _ (λ before_tail.
            Holds-discard_if _ _ _ _ (λ is_last.
              Holds-bind (λ n. Unit) _ _ _ (Holds-any _)
                (λ n. λ t. Holds-discard_if _ _ _ _ (λ small.
                  Holds-bind _ _ _ _
                    (add_events-IsScoped own.session f.events _ same
                      (record { held = h.held; bound = λ s. λ e. cc (e, same) }))
                    (λ w'. λ h'.
                      Holds-bind _ _ _ _ (add_fragments-IsScoped own.session f.fragments w' same h')
                        (λ w''. λ h''. complete_if-Scoped w''.final_tail w'' h'')))))))))))

  cleared-IsScoped : (state : WindowState) → IsScoped scope (cleared state)
  unfolding cleared
  cleared-IsScoped state = record { held = tt; bound = λ s. λ e. cc }

  settled-Scoped :
      (m : Checked (Window × HistoryWindowResult))
      → Holds StepScoped m
      → StepScoped (settled codec m)
  unfolding settled
  settled-Scoped (ok r) h = h
  settled-Scoped (fail reason) h = (cleared-IsScoped closed_discarded, tt)

  accept_state-Scoped :
      (state : WindowState) (in_reply_to : String) (f : HistoryChunkFrame) (w : Window)
      → IsScoped scope w
      → StepScoped (accept_state codec state in_reply_to (some scope) f w)
  unfolding accept_state
  accept_state-Scoped open_window in_reply_to f w h =
      elim (Bool-cases (f.in_reply_to == in_reply_to)) [
        | inl ours ↦ rw ours (settled-Scoped _ (accept_chunk-Scoped f w h))
        | inr other ↦ rw other (h, tt)
      ]
  accept_state-Scoped closed_complete in_reply_to f w h = (h, tt)
  accept_state-Scoped closed_discarded in_reply_to f w h = (h, tt)

  -- The window after some chunks.
  unfoldable pub accept_chunks : String → List HistoryChunkFrame → Window → Window
  accept_chunks in_reply_to [] w = w
  accept_chunks in_reply_to (f ∷ frames) w =
      accept_chunks in_reply_to frames (accept codec in_reply_to (some scope) f w).0

  accept_chunks-IsScoped :
      (in_reply_to : String) (frames : List HistoryChunkFrame) (w : Window)
      → IsScoped scope w
      → IsScoped scope (accept_chunks in_reply_to frames w)
  unfolding accept_chunks accept
  accept_chunks-IsScoped in_reply_to [] w h = h
  accept_chunks-IsScoped in_reply_to (f ∷ frames) w h =
      accept_chunks-IsScoped in_reply_to frames _ (accept_state-Scoped w.state in_reply_to f w h).0

  -- Take a new window with an expected scope, and any chunks in any order, malformed ones and those
  -- of other sessions included. If the next chunk completes the window, each event that it gives,
  -- whether it came whole or in fragments, is of the expected session and generation.
  pub accept-InScope :
      (in_reply_to : String) (frames : List HistoryChunkFrame) (f : HistoryChunkFrame)
      (events : List TimelineEvent) (eos : Bool) (next_before : Option String)
      → (accept codec in_reply_to
          (some scope)
          f
          (accept_chunks in_reply_to frames (cleared open_window))).1
        ≡ complete_window events eos next_before
      → All (InScope scope) events
  unfolding accept
  accept-InScope in_reply_to frames f events eos next_before completed =
      let w = accept_chunks in_reply_to frames (cleared open_window) in
      subst ReplyInScope completed
        (accept_state-Scoped w.state in_reply_to f w (
          accept_chunks-IsScoped in_reply_to frames (cleared open_window)
            (cleared-IsScoped open_window))).1
