-- ===== src/Slicing/RoundTrip.antt =====
-- v2_service.ts and timeline-transfer.ts together: the fragments that the extension cuts, in the web
-- app's assembler.
use native.Mathlib.Numerals.{add-one}
use mathlib.Core.List.{append-nil, append_assoc}
use remote_pi.Base.{
  ℕ, zero, suc, ◌+◌, ◌-◌, ◌*◌, ◌≤◌, ◌<◌, String, ◌≡◌, refl, sym, ap, ◌∙◌, inl, inr, true, false,
  none, some, List, [], ◌∷◌, ◌++◌, arith, length, length-append, leb, take, drop, take-append-drop,
  length-take, length-drop, min, Bool-cases,
}
use remote_pi.Base.Equality.{◌==◌, ==_self, nat_eq, string_eq}
use remote_pi.Base.JsMap.{get, set, delete, get-set, get-delete, length-set}
use remote_pi.Transfer.Types.{
  Bytes, TimelineEvent, TimelineTransferScope, HistoryFragment, pending, complete, FragmentState,
  FragmentStates, max_array_items, max_window_bytes, Codec,
}
use remote_pi.Transfer.Fragments.{
  or_new, finish_fragment, finish_final, finish_collected, check_event, collect, zeros,
}
use remote_pi.Transfer.Assembler.{Assembler, accept, finish}
use remote_pi.Slicing.{max_fragment_decode_bytes, slice_fragments, event_fragments}
use remote_pi.Slicing.Received.{Partial, no_fragments-Partial, next_state, next_state-Partial}
use remote_pi.Slicing.Accepting.{
  Faithful, frame_of, Carries, Ready, with_fragment, accept_next, finish_middle, accept_results,
  outcomes,
}

slice_fragments-nil :
    (to_base64 : Bytes → String) (size : ℕ) (id : String) (fuel index : ℕ)
    → slice_fragments to_base64 size id fuel index [] ≡ []
unfolding slice_fragments
slice_fragments-nil to_base64 size id zero index = refl
slice_fragments-nil to_base64 size id (suc fuel) index = refl

empty_of_length : (xs : Bytes) → length xs ≡ 0 → xs ≡ []
empty_of_length [] h = refl
empty_of_length (x ∷ xs) h = absurd (omega arith)

module _ (codec : Codec) (to_base64 : Bytes → String) (scope : TimelineTransferScope)
    (event : TimelineEvent) (encoded : Bytes)
    (faithful : Faithful codec to_base64 scope event encoded) where
  finish_complete :
      (states : FragmentStates) (id : String) (st : FragmentState) (k : ℕ)
      → id ≡ event.event_id
      → get states id ≡ some st
      → st.final_index ≡ some k
      → length st.entries ≡ k + 1
      → collect (suc k) st.entries ≡ some encoded
      → st.decoded_bytes ≡ length encoded
      → finish_fragment codec scope states id ≡ (delete states id, complete event)
  unfolding finish_fragment finish_final finish_collected check_event zeros
  finish_complete states id st k ours found last full collected counted =
      let is_full : (k + 1 == length st.entries) ≡ true = ground (arith, full) in
      let none_left : length encoded - length encoded ≡ 0 = omega arith in
      rw
        (
          found,
          last,
          is_full,
          collected,
          counted,
          none_left,
          append-nil encoded,
          faithful.parses,
          (string_eq.same_iff event.event_id id).1 (sym ours),
          (string_eq.same_iff event.session_id scope.session_id).1 faithful.same_session,
          (string_eq.same_iff event.history_generation scope.history_generation).1
              faithful.same_generation,
        )
        refl

  -- The last fragment: the event is complete, and its state is gone.
  finish_last :
      (f : HistoryFragment) (b done : Bytes) (a : Assembler)
      → f.event_id ≡ event.event_id
      → f.final ≡ true
      → Partial f.index done (or_new (get a.states f.event_id))
      → done ++ b ≡ encoded
      → let a' = with_fragment f b a in
        finish codec scope f.event_id a'.active_bytes (length done + length b) a'.states none ≡ (
          record {
            states = delete a'.states f.event_id;
            active_bytes = a'.active_bytes - (length done + length b);
          },
          complete event,
        )
  unfolding finish
  finish_last f b done a ours last p whole =
      let st = or_new (get a.states f.event_id) in
      let (count, collected, below) = next_state-Partial f b done st p in
      let found : get (set a.states f.event_id (next_state f b st)) f.event_id
          ≡ some (next_state f b st) =
        rw (get-set a.states f.event_id f.event_id (next_state f b st), ==_self f.event_id) refl in
      let finished =
        finish_complete (set a.states f.event_id (next_state f b st)) f.event_id (next_state f b st)
          f.index ours found (rw last refl) count (collected ∙ ap some whole)
          (omega (arith, p.size, length-append done b, ap length whole)) in
      rw finished refl

  -- The first fragment of `b ∷ rest`.
  abbrev first : ℕ → ℕ → Bytes → HistoryFragment
  first size index rest = record {
    event_id = event.event_id;
    index = index;
    data_base64 = to_base64 (take size rest);
    final = leb (length rest) (length (take size rest));
  }

  -- What the fragments of `rest` do, when those of `done` have come.
  record Delivers (fragments : List HistoryFragment) (done : Bytes) (a : Assembler) : Type 0 where
    results : (accept_results codec scope fragments a).1 ≡ outcomes event fragments
    forgotten : get (accept_results codec scope fragments a).0.states event.event_id ≡ none
    freed : (accept_results codec scope fragments a).0.active_bytes + length done ≡ a.active_bytes
    others :
        (k : String)
        → (event.event_id == k) ≡ false
        → get (accept_results codec scope fragments a).0.states k ≡ get a.states k

  accept-first :
      (size index : ℕ) (rest done : Bytes) (a : Assembler)
      → size ≡ max_fragment_decode_bytes
      → 0 < length rest
      → index * max_fragment_decode_bytes ≤ length done
      → length done + length rest ≤ max_window_bytes
      → a.active_bytes + length rest ≤ max_window_bytes
      → done ++ rest ≡ encoded
      → Ready event.event_id index done a
      → let f = first size index rest in
        let b = take size rest in
        let a' = with_fragment f b a in
        accept codec scope (frame_of scope f) a
        ≡ finish codec scope event.event_id a'.active_bytes (length done + length b) a'.states none
  accept-first size index rest done a is_max more near small room whole r =
      let b = take size rest in
      let f = first size index rest in
      let long : length b ≡ min size (length rest) = length-take size rest in
      let carries : Carries to_base64 event.event_id encoded f b = (
        refl,
        refl,
        omega (arith, long, is_max),
        omega (arith, long, is_max),
        omega (arith, near, small, more),
        done,
        drop size rest,
        ap (λ ys. done ++ ys) (take-append-drop size rest) ∙ whole,
      ) in
      accept_next codec scope f b done a r (faithful.accepts f b carries)
        (faithful.decodes f b carries) (omega (arith, near, small, more))
        (omega (arith, long, room)) (omega (arith, long, small))

  Delivers-last :
      (size index : ℕ) (rest done : Bytes) (a : Assembler)
      → accept codec scope (frame_of scope (first size index rest)) a
        ≡ finish codec scope event.event_id
            (with_fragment (first size index rest) (take size rest) a).active_bytes
            (length done + length (take size rest))
            (with_fragment (first size index rest) (take size rest) a).states
            none
      → Partial index done (or_new (get a.states event.event_id))
      → (first size index rest).final ≡ true
      → done ++ take size rest ≡ encoded
      → length done ≤ a.active_bytes
      → Delivers (first size index rest ∷ []) done a
  unfolding accept_results
  Delivers-last size index rest done a accepted p last whole held =
      let e =
        accepted ∙ finish_last (first size index rest) (take size rest) done a refl last p whole in
      let st =
        next_state (first size index rest) (take size rest)
          (or_new (get a.states event.event_id)) in
      let states = set a.states event.event_id st in
      record {
        results = rw e refl;
        forgotten =
            rw (e, get-delete states event.event_id event.event_id, ==_self event.event_id) refl;
        freed = rw e (omega (arith, held));
        others = λ k. λ other.
            rw (e, get-delete states event.event_id k, get-set a.states event.event_id k st, other)
              refl;
      }

  outcomes_cons :
      (f : HistoryFragment) (fragments : List HistoryFragment)
      → 0 < length fragments
      → outcomes event (f ∷ fragments) ≡ pending ∷ outcomes event fragments
  outcomes_cons f [] h = absurd (omega arith)
  outcomes_cons f (g ∷ fragments) h = refl

  Delivers-middle :
      (size index : ℕ) (rest done : Bytes) (fragments : List HistoryFragment) (a : Assembler)
      → accept codec scope (frame_of scope (first size index rest)) a
        ≡ finish codec scope event.event_id
            (with_fragment (first size index rest) (take size rest) a).active_bytes
            (length done + length (take size rest))
            (with_fragment (first size index rest) (take size rest) a).states
            none
      → Partial index done (or_new (get a.states event.event_id))
      → (first size index rest).final ≡ false
      → 0 < length fragments
      → Delivers fragments
          (done ++ take size rest)
          (with_fragment (first size index rest) (take size rest) a)
      → Delivers (first size index rest ∷ fragments) done a
  unfolding accept_results
  Delivers-middle size index rest done fragments a accepted p middle more d =
      let e =
        accepted
        ∙ finish_middle codec scope (first size index rest) (take size rest)
            (length done + length (take size rest)) a middle p.unfinished in
      let st =
        next_state (first size index rest) (take size rest)
          (or_new (get a.states event.event_id)) in
      record {
        results =
            rw (e, outcomes_cons (first size index rest) fragments more)
              (ap (λ rs. pending ∷ rs) d.results);
        forgotten = rw e d.forgotten;
        freed = rw e (omega (arith, d.freed, length-append done (take size rest)));
        others = λ k. λ other.
            rw e (d.others k other ∙ rw (get-set a.states event.event_id k st, other) refl);
      }

  Ready-next :
      (size index : ℕ) (rest done : Bytes) (a : Assembler)
      → Ready event.event_id index done a
      → (first size index rest).final ≡ false
      → Ready event.event_id
          (index + 1)
          (done ++ take size rest)
          (with_fragment (first size index rest) (take size rest) a)
  Ready-next size index rest done a r middle =
      let st = or_new (get a.states event.event_id) in
      let f = first size index rest in
      let (count, collected, below) = next_state-Partial f (take size rest) done st r.partial in
      let p : Partial (index + 1) (done ++ take size rest) (next_state f (take size rest) st) =
        record {
          below = below;
          count = count;
          collected = rw add-one collected;
          unfinished = rw (middle, r.partial.unfinished) refl;
          size = omega (arith, r.partial.size, length-append done (take size rest));
        } in
      let found =
        get-set a.states event.event_id event.event_id (next_state f (take size rest) st) in
      record {
        partial = rw (found, ==_self event.event_id) p;
        slots =
            rw (found, ==_self event.event_id)
              (rw (length-set a.states event.event_id (next_state f (take size rest) st)) r.slots);
      }

  slice_fragments_pos :
      (size fuel index : ℕ) (rest : Bytes)
      → 0 < length rest
      → length rest ≤ fuel
      → 0 < length (slice_fragments to_base64 size event.event_id fuel index rest)
  unfolding slice_fragments
  slice_fragments_pos size zero index rest more enough = absurd (omega arith)
  slice_fragments_pos size (suc fuel) index [] more enough = absurd (omega arith)
  slice_fragments_pos size (suc fuel) index (x ∷ xs) more enough = omega arith

  accept_slices :
      (size fuel index : ℕ) (rest done : Bytes) (a : Assembler)
      → size ≡ max_fragment_decode_bytes
      → 0 < length rest
      → length rest ≤ fuel
      → done ++ rest ≡ encoded
      → index * max_fragment_decode_bytes ≤ length done
      → length encoded ≤ max_window_bytes
      → a.active_bytes + length rest ≤ max_window_bytes
      → length done ≤ a.active_bytes
      → Ready event.event_id index done a
      → Delivers (slice_fragments to_base64 size event.event_id fuel index rest) done a
  unfolding slice_fragments
  accept_slices size zero index rest done a is_max more enough whole near bound room held r =
      absurd (omega arith)
  accept_slices size (suc fuel) index [] done a is_max more enough whole near bound room held r =
      absurd (omega arith)
  accept_slices size (suc fuel) index (x ∷ xs) done a is_max more enough whole near bound room held
        r =
      let rest = x ∷ xs in
      let small : length done + length rest ≤ max_window_bytes =
        omega (arith, length-append done rest, ap length whole) in
      let accepted = accept-first size index rest done a is_max more near small room whole r in
      let left : length (drop size rest) ≡ length rest - size = length-drop size rest in
      let long : length (take size rest) ≡ min size (length rest) = length-take size rest in
      let both = take-append-drop size rest in
      elim (Bool-cases (leb (length rest) (length (take size rest)))) [
        | inl last ↦
            let over : drop size rest ≡ [] =
              empty_of_length (drop size rest) (ground (arith, left, long)) in
            rw (over, slice_fragments-nil to_base64 size event.event_id fuel (index + 1))
              (Delivers-last size index rest done a accepted r.partial last
                (ap (λ ys. done ++ ys) (sym (append-nil (take size rest)) ∙ rw over at both)
                  ∙ whole)
                held)
        | inr middle ↦
            let goes_on : 0 < length (drop size rest) = ground (arith, left, long) in
            let fits : length (drop size rest) ≤ fuel = omega (arith, left, is_max, enough) in
            Delivers-middle size index rest done _ a accepted r.partial middle
              (slice_fragments_pos size fuel (index + 1) (drop size rest) goes_on fits)
              (accept_slices size fuel (index + 1) (drop size rest) (done ++ take size rest)
                (with_fragment (first size index rest) (take size rest) a) is_max goes_on fits
                (append_assoc done (take size rest) (drop size rest)
                  ∙ ap (λ ys. done ++ ys) both
                  ∙ whole)
                (omega
                  (arith, near, length-append done (take size rest), long, left, goes_on, is_max))
                bound (omega (arith, room, long, left))
                (omega (arith, held, length-append done (take size rest)))
                (Ready-next size index rest done a r middle))
      ]

-- Take an event that is published in fragments, and an assembler of its session that has nothing of
-- this event yet, and room for it, whatever else is under way. When the fragments come in order,
-- each is pending but the last, whose result is the event; the assembler is left with nothing of it,
-- the bytes that it held before, and every other event under way as it was.
pub event_fragments-accept :
    (codec : Codec) (to_base64 : Bytes → String) (scope : TimelineTransferScope)
    (event : TimelineEvent) (encoded : Bytes) (a : Assembler)
    → Faithful codec to_base64 scope event encoded
    → 0 < length encoded
    → a.active_bytes + length encoded ≤ max_window_bytes
    → length a.states < max_array_items
    → get a.states event.event_id ≡ none
    → let fragments = event_fragments to_base64 event.event_id encoded in
      let (a', results) = accept_results codec scope fragments a in
      (results ≡ outcomes event fragments)
      × (get a'.states event.event_id ≡ none)
      × (a'.active_bytes ≡ a.active_bytes)
      × ((k : String) → (event.event_id == k) ≡ false → get a'.states k ≡ get a.states k)
unfolding event_fragments
event_fragments-accept codec to_base64 scope event encoded a faithful some_bytes room slots absent =
    let d =
      accept_slices codec to_base64 scope event encoded faithful max_fragment_decode_bytes
        (length encoded) 0 encoded [] a refl some_bytes (omega arith) refl (omega arith)
        (omega (arith, room)) room (omega arith)
        (record {
          partial = rw absent no_fragments-Partial;
          slots = rw absent (omega (arith, slots));
        }) in
    (d.results, d.forgotten, omega (arith, d.freed), d.others)
