-- ===== src/History/Frames.antt =====
-- history.ts: the frames of a window.
use remote_pi.Base.{
  ℕ, ◌+◌, ◌<◌, ◌≤◌, String, ◌≡◌, refl, ap, ◌∙◌, inl, inr, Bool, not, Option, List, [], ◌∷◌, ◌++◌,
  map, length, arith, leb, All, filter, flat_map, Bool-cases, Option-cases,
}
use remote_pi.Base.Equality.{◌==◌, nat_eq}
use remote_pi.Transfer.Types.{TimelineEvent, HistoryChunkFrame, HistoryFragment}
use remote_pi.Slicing.{event_fragments}
use remote_pi.History.{
  Request, CursorState, EventRecord, HistoryItem, event_item, fragment_item, Payload, Attempt, done,
  thrown, ◌>>=◌, Protocol, max_history_chunk_bytes,
}
use remote_pi.History.Chunking.{
  no_payload, make_chunk, chunk_bytes, is_whole, items_of_record, check_frame, frames_from,
  fragment_window,
}
use remote_pi.History.Packing.{
  Gives, Gives-weaken, item_events, item_fragments, OnePerEvent, events_of, fragments_of, Packed,
  pack-Packed,
}

pub Gives-bind :
    {A B : Type 0} (P : A → Type 0) (Q : B → Type 0) (m : Attempt A) (f : A → Attempt B)
    → Gives P m
    → ((a : A) → P a → Gives Q (f a))
    → Gives Q (m >>= f)
unfolding ◌>>=◌
Gives-bind P Q (done a) f p rest = rest a p
Gives-bind P Q (thrown reason) f p rest = tt

item_events-append :
    (xs ys : List HistoryItem) → item_events (xs ++ ys) ≡ item_events xs ++ item_events ys
item_events-append [] ys = refl
item_events-append (event_item e ∷ xs) ys = ap (λ r. e ∷ r) (item_events-append xs ys)
item_events-append (fragment_item f ∷ xs) ys = item_events-append xs ys

item_fragments-append :
    (xs ys : List HistoryItem) → item_fragments (xs ++ ys) ≡ item_fragments xs ++ item_fragments ys
item_fragments-append [] ys = refl
item_fragments-append (event_item e ∷ xs) ys = item_fragments-append xs ys
item_fragments-append (fragment_item f ∷ xs) ys = ap (λ r. f ∷ r) (item_fragments-append xs ys)

item_events-fragments : (fs : List HistoryFragment) → item_events (map fragment_item fs) ≡ []
item_events-fragments [] = refl
item_events-fragments (f ∷ fs) = item_events-fragments fs

item_fragments-fragments : (fs : List HistoryFragment) → item_fragments (map fragment_item fs) ≡ fs
item_fragments-fragments [] = refl
item_fragments-fragments (f ∷ fs) = ap (λ r. f ∷ r) (item_fragments-fragments fs)

module _ (protocol : Protocol) (request : Request) (cursor : CursorState)
    (next_before : Option String) where
  abbrev whole : EventRecord → Bool
  whole r = is_whole protocol request cursor next_before r.event

  -- The events of the window that are sent as they are, and the fragments of the others.
  unfoldable pub whole_events : List EventRecord → List TimelineEvent
  whole_events records = map (λ (r : EventRecord). r.event) (filter whole records)

  unfoldable pub cut_fragments : List EventRecord → List HistoryFragment
  cut_fragments records =
      flat_map
        (λ (r : EventRecord).
          event_fragments protocol.to_base64 r.event.event_id (protocol.encode r.event))
        (filter (λ r. not (whole r)) records)

  abbrev items_of : List EventRecord → List HistoryItem
  items_of records = flat_map (items_of_record protocol request cursor next_before) records

  item_events-items :
      (records : List EventRecord) → item_events (items_of records) ≡ whole_events records
  unfolding whole_events items_of_record
  item_events-items [] = refl
  item_events-items (r ∷ records) =
      let fs = event_fragments protocol.to_base64 r.event.event_id (protocol.encode r.event) in
      elim (Bool-cases (whole r)) [
        | inl is_whole_event ↦
            rw is_whole_event (ap (λ es. r.event ∷ es) (item_events-items records))
        | inr too_large ↦ rw too_large (
            item_events-append (map fragment_item fs) (items_of records)
            ∙ ap (λ es. es ++ item_events (items_of records)) (item_events-fragments fs)
            ∙ item_events-items records)
      ]

  item_fragments-items :
      (records : List EventRecord) → item_fragments (items_of records) ≡ cut_fragments records
  unfolding cut_fragments items_of_record
  item_fragments-items [] = refl
  item_fragments-items (r ∷ records) =
      let fs = event_fragments protocol.to_base64 r.event.event_id (protocol.encode r.event) in
      elim (Bool-cases (whole r)) [
        | inl is_whole_event ↦ rw is_whole_event (item_fragments-items records)
        | inr too_large ↦ rw too_large (
            item_fragments-append (map fragment_item fs) (items_of records)
            ∙ ap (λ es. es ++ item_fragments (items_of records)) (item_fragments-fragments fs)
            ∙ ap (λ es. fs ++ es) (item_fragments-items records))
      ]

  -- The chunks are numbered from `index`, of the request and the cursor, and exactly the last is final.
  abbrev pub Numbered : ℕ → List HistoryChunkFrame → Type 0
  Numbered index [] = Unit
  Numbered index (c ∷ chunks) =
      let payload : Payload = record { events = c.events; fragments = c.fragments } in
      (c ≡ make_chunk request cursor payload (length chunks == 0) next_before index)
      × Numbered (index + 1) chunks

  pub record Framed (index : ℕ) (payloads : List Payload) (chunks : List HistoryChunkFrame)
      : Type 0 where
    pub events : flat_map (λ (c : HistoryChunkFrame). c.events) chunks ≡ events_of payloads
    pub fragments : flat_map (λ (c : HistoryChunkFrame). c.fragments) chunks ≡ fragments_of payloads
    pub numbered : Numbered index chunks
    pub small :
        All
          (λ c. chunk_bytes protocol request cursor next_before c ≤ max_history_chunk_bytes)
          chunks
    pub one_per_event : All (λ (c : HistoryChunkFrame). OnePerEvent c.fragments) chunks
    pub count : length chunks ≡ length payloads

  abbrev IsChecked : HistoryChunkFrame → HistoryChunkFrame → Type 0
  IsChecked chunk c =
      (c ≡ chunk)
      × (chunk_bytes protocol request cursor next_before chunk ≤ max_history_chunk_bytes)

  check_frame_lem :
      (chunk : HistoryChunkFrame)
      → Gives (IsChecked chunk) (check_frame protocol request cursor next_before chunk)
  unfolding check_frame
  check_frame_lem chunk =
      elim (Bool-cases
        (leb (chunk_bytes protocol request cursor next_before chunk) max_history_chunk_bytes)) [
          | inl fits ↦ elim (Option-cases (protocol.encode_error request.target_channel_id chunk)) [
            | inl valid ↦ rw (fits, valid) (refl, ground (arith, fits))
            | inr (reason, invalid) ↦ rw (fits, invalid) tt
          ]
          | inr too_large ↦ rw too_large tt
        ]

  cons-Framed :
      (index : ℕ) (payload : Payload) (payloads : List Payload) (chunks : List HistoryChunkFrame)
      → let chunk = make_chunk request cursor payload (length payloads == 0) next_before index in
        chunk_bytes protocol request cursor next_before chunk ≤ max_history_chunk_bytes
        → OnePerEvent payload.fragments
        → Framed (index + 1) payloads chunks
        → Framed index (payload ∷ payloads) (chunk ∷ chunks)
  unfolding make_chunk
  cons-Framed index payload payloads chunks small distinct rest = record {
    events = ap (λ r. payload.events ++ r) rest.events;
    fragments = ap (λ r. payload.fragments ++ r) rest.fragments;
    numbered = (rw (rest.count) refl, rest.numbered);
    small = (small, rest.small);
    one_per_event = (distinct, rest.one_per_event);
    count = omega (arith, rest.count);
  }

  frames_from-Framed :
      (index : ℕ) (payloads : List Payload)
      → All (λ (p : Payload). OnePerEvent p.fragments) payloads
      → Gives
          (Framed index payloads)
          (frames_from protocol request cursor next_before index payloads)
  unfolding frames_from
  frames_from-Framed index [] distinct = record {
    events = refl;
    fragments = refl;
    numbered = tt;
    small = tt;
    one_per_event = tt;
    count = refl;
  }
  frames_from-Framed index (payload ∷ payloads) distinct =
      let chunk = make_chunk request cursor payload (length payloads == 0) next_before index in
      Gives-bind (IsChecked chunk) (Framed index (payload ∷ payloads)) _ _ (check_frame_lem chunk)
        (λ c. λ (same, small).
          Gives-bind (Framed (index + 1) payloads) (Framed index (payload ∷ payloads)) _ _
            (frames_from-Framed (index + 1) payloads distinct.1)
            (λ chunks.
              λ rest. rw same (cons-Framed index payload payloads chunks small distinct.0 rest)))

  abbrev pub Content : List EventRecord → List HistoryChunkFrame → Type 0
  Content records chunks =
      (0 < length chunks)
      × (flat_map (λ (c : HistoryChunkFrame). c.events) chunks ≡ whole_events records)
      × (flat_map (λ (c : HistoryChunkFrame). c.fragments) chunks ≡ cut_fragments records)
      × Numbered 0 chunks
      × All (λ c. chunk_bytes protocol request cursor next_before c ≤ max_history_chunk_bytes)
          chunks
      × All (λ (c : HistoryChunkFrame). OnePerEvent c.fragments) chunks

  pub fragment_window-Content :
      (records : List EventRecord)
      → Gives (Content records) (fragment_window protocol request cursor next_before records)
  unfolding fragment_window
  fragment_window-Content records =
      let items = items_of records in
      Gives-bind (Packed [] no_payload items) (Content records) _ _
        (pack-Packed protocol request cursor next_before [] no_payload items tt tt)
        (λ payloads. λ packed.
          Gives-weaken (Framed 0 payloads) (Content records)
            (frames_from protocol request cursor next_before 0 payloads)
            (λ chunks. λ framed. (
              omega (arith, framed.count, packed.some_payload),
              framed.events ∙ packed.events ∙ item_events-items records,
              framed.fragments ∙ packed.fragments ∙ item_fragments-items records,
              framed.numbered,
              framed.small,
              framed.one_per_event,
            ))
            (frames_from-Framed 0 payloads packed.one_per_event))
