-- ===== src/History/Packing.antt =====
-- history.ts: `fragmentWindow` puts every item into one payload, in order.
use mathlib.Core.List.{append-nil, append_assoc}
use remote_pi.Base.{
  ◌<◌, String, ◌≡◌, refl, sym, ap, ◌∙◌, inl, inr, true, false, not, ◌||◌, Option, List, [], ◌∷◌,
  ◌++◌, length, length-append, arith, All, All-append, flat_map, Bool-cases,
}
use remote_pi.Base.Equality.{◌==◌, string_eq, nat_eq}
use remote_pi.Base.Distinct.{DistinctBy, DistinctBy-append}
use remote_pi.Transfer.Types.{TimelineEvent, HistoryFragment}
use remote_pi.History.{
  Request, CursorState, HistoryItem, event_item, fragment_item, Payload, Attempt, done, thrown,
  Protocol,
}
use remote_pi.History.Chunking.{no_payload, is_empty, append_item, repeated_fragment, goes_in, pack}

-- If there is a value, it has the property.
abbrev pub Gives {ℓ} : {A : Type ℓ} → (A → Type 0) → Attempt A → Type 0
Gives P (done a) = P a
Gives P (thrown reason) = Unit

pub Gives-weaken :
    {A : Type 0} (P Q : A → Type 0) (m : Attempt A) → ((a : A) → P a → Q a) → Gives P m → Gives Q m
Gives-weaken P Q (done a) f h = f a h
Gives-weaken P Q (thrown reason) f h = tt

abbrev pub item_events : List HistoryItem → List TimelineEvent
item_events [] = []
item_events (event_item e ∷ items) = e ∷ item_events items
item_events (fragment_item f ∷ items) = item_events items

abbrev pub item_fragments : List HistoryItem → List HistoryFragment
item_fragments [] = []
item_fragments (event_item e ∷ items) = item_fragments items
item_fragments (fragment_item f ∷ items) = f ∷ item_fragments items

-- No two fragments are of the same event.
abbrev pub OnePerEvent : List HistoryFragment → Type 0
OnePerEvent fragments = DistinctBy (λ (f : HistoryFragment). f.event_id) fragments

abbrev pub events_of : List Payload → List TimelineEvent
events_of payloads = flat_map (λ (p : Payload). p.events) payloads

abbrev pub fragments_of : List Payload → List HistoryFragment
fragments_of payloads = flat_map (λ (p : Payload). p.fragments) payloads

flat_map-append :
    {A B : Type 0} (f : A → List B) (xs ys : List A)
    → flat_map f (xs ++ ys) ≡ flat_map f xs ++ flat_map f ys
flat_map-append f [] ys = refl
flat_map-append f (x ∷ xs) ys =
    ap (λ rest. f x ++ rest) (flat_map-append f xs ys)
    ∙ sym (append_assoc (f x) (flat_map f xs) (flat_map f ys))

-- `result` is `payloads`, then `current` with the items.
pub record Packed (payloads : List Payload) (current : Payload) (items : List HistoryItem)
    (result : List Payload) : Type 0 where
  pub events : events_of result ≡ events_of payloads ++ (current.events ++ item_events items)
  pub fragments :
      fragments_of result ≡ fragments_of payloads ++ (current.fragments ++ item_fragments items)
  pub some_payload : 0 < length result
  pub one_per_event : All (λ (p : Payload). OnePerEvent p.fragments) result

-- A field of a payload that got one more item.
append_events :
    (current : Payload) (item : HistoryItem) (rest : List HistoryItem)
    → (append_item current item).events ++ item_events rest
      ≡ current.events ++ item_events (item ∷ rest)
unfolding append_item
append_events current (event_item e) rest = append_assoc current.events (e ∷ []) (item_events rest)
append_events current (fragment_item f) rest = refl

append_fragments :
    (current : Payload) (item : HistoryItem) (rest : List HistoryItem)
    → (append_item current item).fragments ++ item_fragments rest
      ≡ current.fragments ++ item_fragments (item ∷ rest)
unfolding append_item
append_fragments current (event_item e) rest = refl
append_fragments current (fragment_item f) rest =
    append_assoc current.fragments (f ∷ []) (item_fragments rest)

append_item-OnePerEvent :
    (protocol : Protocol) (request : Request) (cursor : CursorState) (next_before : Option String)
    (current : Payload) (item : HistoryItem)
    → repeated_fragment protocol request cursor next_before current item ≡ false
    → OnePerEvent current.fragments
    → OnePerEvent (append_item current item).fragments
unfolding append_item
append_item-OnePerEvent protocol request cursor next_before current (event_item e) new distinct =
    distinct
append_item-OnePerEvent protocol request cursor next_before current (fragment_item f) new distinct =
    DistinctBy-append (λ (g : HistoryFragment). g.event_id) current.fragments f new distinct

first_item-OnePerEvent : (item : HistoryItem) → OnePerEvent (append_item no_payload item).fragments
unfolding append_item
first_item-OnePerEvent (event_item e) = tt
first_item-OnePerEvent (fragment_item f) = (refl, tt)

-- The last payload is written after those before it.
close-Packed :
    (payloads : List Payload) (current : Payload)
    → OnePerEvent current.fragments
    → All (λ (p : Payload). OnePerEvent p.fragments) payloads
    → Packed payloads current [] (payloads ++ current ∷ [])
close-Packed payloads current distinct others = record {
  events = flat_map-append (λ (p : Payload). p.events) payloads (current ∷ []);
  fragments = flat_map-append (λ (p : Payload). p.fragments) payloads (current ∷ []);
  some_payload = omega (arith, length-append payloads (current ∷ []));
  one_per_event = All-append _ payloads (current ∷ []) others (distinct, tt);
}

pub empty_list : {A : Type 0} (xs : List A) → (length xs == 0) ≡ true → xs ≡ []
empty_list [] e = refl
empty_list (x ∷ xs) e = absurd (ground (arith, e))

-- Nothing is left to write.
skip-Packed :
    (payloads : List Payload) (current : Payload)
    → is_empty current ≡ true
    → (length payloads == 0) ≡ false
    → All (λ (p : Payload). OnePerEvent p.fragments) payloads
    → Packed payloads current [] payloads
skip-Packed payloads current nothing some_before others =
    let no_events = empty_list current.events (ground (arith, nothing)) in
    let no_fragments = empty_list current.fragments (ground (arith, nothing)) in
    record {
      events = rw no_events (sym (append-nil (events_of payloads)));
      fragments = rw no_fragments (sym (append-nil (fragments_of payloads)));
      some_payload = ground (arith, some_before);
      one_per_event = others;
    }

-- An item that goes into the current payload, and one that starts a payload.
goes_in-Packed :
    (payloads result : List Payload) (current : Payload) (item : HistoryItem)
    (items : List HistoryItem)
    → Packed payloads (append_item current item) items result
    → Packed payloads current (item ∷ items) result
goes_in-Packed payloads result current item items p = record {
  events = p.events ∙ ap (λ r. events_of payloads ++ r) (append_events current item items);
  fragments =
      p.fragments ∙ ap (λ r. fragments_of payloads ++ r) (append_fragments current item items);
  some_payload = p.some_payload;
  one_per_event = p.one_per_event;
}

after_close :
    {A : Type 0} (f : Payload → List A) (payloads : List Payload) (current : Payload)
    (first all : List A)
    → first ≡ all
    → flat_map f (payloads ++ current ∷ []) ++ first ≡ flat_map f payloads ++ (f current ++ all)
after_close f payloads current first all e =
    rw (flat_map-append f payloads (current ∷ []), append-nil (f current), e)
      (append_assoc (flat_map f payloads) (f current) all)

starts-Packed :
    (payloads result : List Payload) (current : Payload) (item : HistoryItem)
    (items : List HistoryItem)
    → Packed (payloads ++ current ∷ []) (append_item no_payload item) items result
    → Packed payloads current (item ∷ items) result
starts-Packed payloads result current item items p = record {
  events =
      p.events
      ∙ after_close (λ (p : Payload). p.events) payloads current
          ((append_item no_payload item).events ++ item_events items) (item_events (item ∷ items))
          (append_events no_payload item items);
  fragments =
      p.fragments
      ∙ after_close (λ (p : Payload). p.fragments) payloads current
          ((append_item no_payload item).fragments ++ item_fragments items)
          (item_fragments (item ∷ items)) (append_fragments no_payload item items);
  some_payload = p.some_payload;
  one_per_event = p.one_per_event;
}

-- What is packed when the limits hold, as an attempt.
module _ (protocol : Protocol) (request : Request) (cursor : CursorState)
    (next_before : Option String) where
  pub pack-Packed :
      (payloads : List Payload) (current : Payload) (items : List HistoryItem)
      → OnePerEvent current.fragments
      → All (λ (p : Payload). OnePerEvent p.fragments) payloads
      → Gives
          (Packed payloads current items)
          (pack protocol request cursor next_before payloads current items)
  unfolding pack
  pack-Packed payloads current [] distinct others =
      elim (Bool-cases (not (is_empty current) || length payloads == 0)) [
        | inl closes ↦ rw closes (close-Packed payloads current distinct others)
        | inr skips ↦
            rw skips
              (skip-Packed payloads current (ground (arith, skips)) (ground (arith, skips)) others)
      ]
  pack-Packed payloads current (item ∷ items) distinct others =
      elim (Bool-cases (goes_in protocol request cursor next_before current item)) [
        | inl goes ↦ rw goes (
            Gives-weaken (Packed payloads (append_item current item) items)
              (Packed payloads current (item ∷ items))
              (pack protocol request cursor next_before payloads (append_item current item) items)
              (λ r. goes_in-Packed payloads r current item items)
              (pack-Packed payloads (append_item current item) items
                (append_item-OnePerEvent protocol request cursor next_before current item
                  (ground (arith, goes)) distinct)
                others))
        | inr starts ↦ elim (Bool-cases (is_empty current)) [
          | inl nothing ↦ rw (starts, nothing) tt
          | inr something ↦
              rw (starts, something)
                (Gives-weaken
                  (Packed (payloads ++ current ∷ []) (append_item no_payload item) items)
                  (Packed payloads current (item ∷ items))
                  (pack protocol request cursor next_before (payloads ++ current ∷ [])
                    (append_item no_payload item) items)
                  (λ r. starts-Packed payloads r current item items)
                  (pack-Packed (payloads ++ current ∷ []) (append_item no_payload item) items
                    (first_item-OnePerEvent item)
                    (All-append _ payloads (current ∷ []) others (distinct, tt))))
        ]
      ]
