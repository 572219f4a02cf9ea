-- ===== src/Display/Buffer.antt =====
-- stream-display-buffer.ts: `StreamDisplayBuffer`.
use remote_pi.Base.{
  String, Bool, true, false, not, ◌&&◌, ◌||◌, Option, none, some, List, [], ◌∷◌, ◌++◌, map, any,
  filter, ltb, if◌then◌else◌,
}
use remote_pi.Base.Equality.{◌==◌, nat_eq, string_eq}
use remote_pi.Base.JsMap
use remote_pi.Base.JsMap.{JsMap, values}
use remote_pi.Display.Types.{
  Text, TimelineEvent, TimelinePartialView, TimelineViewItem, event_item, pending_item,
  partial_item, matches_formal, item_time, item_id, same_items, NonStreamToken, non_stream_tokens,
  same_non_stream_tokens,
}
use remote_pi.Display.Streams.{
  StreamState, is_drained, projected_partial, advance_stream, new_stream, update_stream,
  reset_stream,
}

pub record Buffer : Type 0 where
  pub authoritative : List TimelineViewItem
  pub displayed : List TimelineViewItem
  pub rendered_non_stream_tokens : List NonStreamToken
  pub streams : JsMap String StreamState

pub record Change : Type 0 where
  pub items : List TimelineViewItem
  pub should_render : Bool
  pub has_pending : Bool

abbrev pub empty : Buffer
empty = record { authoritative = []; displayed = []; rendered_non_stream_tokens = []; streams = [] }

unfoldable pub events_of : List TimelineViewItem → List TimelineEvent
events_of [] = []
events_of (event_item e ∷ items) = e ∷ events_of items
events_of (pending_item p ∷ items) = events_of items
events_of (partial_item v ∷ items) = events_of items

-- `new Map` over the partials, by `partial_id`: a later one takes an earlier one's place.
unfoldable pub partials_of :
    List TimelineViewItem → JsMap String TimelinePartialView → JsMap String TimelinePartialView
partials_of [] m = m
partials_of (partial_item v ∷ items) m = partials_of items (JsMap.set m v.partial.partial_id v)
partials_of (event_item e ∷ items) m = partials_of items m
partials_of (pending_item p ∷ items) m = partials_of items m

unfoldable pub has_formal : List TimelineEvent → StreamState → Bool
has_formal events s = any (λ e. matches_formal s.partial.partial e) events

unfoldable pub has_pending : Buffer → Bool
has_pending b = any (λ s. not (is_drained s)) (values b.streams)

module _ (before : TimelineViewItem → TimelineViewItem → Bool) where
  -- `before a b` is `compareItems(a, b) <= 0`; the sort is stable.
  unfoldable pub insert_item : TimelineViewItem → List TimelineViewItem → List TimelineViewItem
  insert_item a [] = a ∷ []
  insert_item a (b ∷ items) =
      let rest = insert_item a items in if before a b then a ∷ b ∷ items else b ∷ rest

  unfoldable pub sort_items : List TimelineViewItem → List TimelineViewItem
  unfolding insert_item
  sort_items [] = []
  sort_items (a ∷ items) = insert_item a (sort_items items)

-- `compareItems(a, b) <= 0`, where `locale_le` is `localeCompare(…) <= 0`.
unfoldable pub compare_items : (String → String → Bool) → TimelineViewItem → TimelineViewItem → Bool
compare_items locale_le a b =
    ltb (item_time a) (item_time b)
    || (item_time a == item_time b && locale_le (item_id a) (item_id b))

abbrev project_found : Option StreamState → List TimelineViewItem → List TimelineViewItem
project_found none items = items
project_found (some s) items = partial_item (projected_partial s) ∷ items

-- The first loop of `buildSnapshot`.
unfoldable pub visible_items :
    JsMap String StreamState → List TimelineViewItem → List TimelineViewItem
visible_items streams [] = []
visible_items streams (event_item e ∷ items) =
    let rest = visible_items streams items in
    if any (λ s. matches_formal s.partial.partial e) (values streams)
    then rest
    else event_item e ∷ rest
visible_items streams (pending_item p ∷ items) = pending_item p ∷ visible_items streams items
visible_items streams (partial_item v ∷ items) =
    project_found (JsMap.get streams v.partial.partial_id) (visible_items streams items)

-- The second loop: streams whose partial is gone, and that still drain before their formal event.
unfoldable pub draining_items :
    List TimelineEvent → JsMap String StreamState → List TimelineViewItem
draining_items formal_events [] = []
draining_items formal_events ((id, s) ∷ streams) =
    let rest = draining_items formal_events streams in
    if s.seen || not (has_formal formal_events s)
    then rest
    else partial_item (projected_partial s) ∷ rest

module _ (segment_text : Text → List Text) (locale_le : String → String → Bool) where
  unfoldable pub build_snapshot : List TimelineEvent → Buffer → List TimelineViewItem
  unfolding sort_items visible_items draining_items
  build_snapshot formal_events b =
      sort_items (compare_items locale_le)
        (visible_items b.streams b.authoritative ++ draining_items formal_events b.streams)

  unchanged : Buffer → Buffer × Change
  unfolding has_pending
  unchanged b =
      (b, record { items = b.displayed; should_render = false; has_pending = has_pending b })

  rebuild : List TimelineViewItem → List TimelineEvent → Bool → Buffer → Buffer × Change
  unfolding build_snapshot has_pending
  rebuild previous formal_events force_render b =
      let displayed = build_snapshot formal_events b in
      (
        record b {
          displayed = displayed;
          rendered_non_stream_tokens = non_stream_tokens b.authoritative;
        },
        record {
          items = displayed;
          should_render = force_render || not (same_items previous displayed);
          has_pending = has_pending b;
        },
      )

  -- The loop of `ingest` over the current partials.
  upsert :
      TimelinePartialView
      → JsMap String StreamState
      → Option StreamState
      → JsMap String StreamState × Bool
  upsert view streams none =
      (JsMap.set streams view.partial.partial_id (new_stream segment_text view), true)
  upsert view streams (some s) =
      let (s', needs_snapshot) = update_stream segment_text view s in
      (JsMap.set streams view.partial.partial_id s', needs_snapshot)

  unfoldable pub upsert_all :
      List TimelinePartialView → JsMap String StreamState → JsMap String StreamState × Bool
  unfolding upsert
  upsert_all [] streams = (streams, false)
  upsert_all (view ∷ views) streams =
      let (streams', needs_snapshot) =
        upsert view streams (JsMap.get streams view.partial.partial_id) in
      let (streams'', others_need) = upsert_all views streams' in
      (streams'', needs_snapshot || others_need)

  -- A stream goes when its partial is gone and no formal event waits for it, or when it is drained
  -- and the formal event is there.
  unfoldable pub is_finished : List TimelineEvent → StreamState → Bool
  is_finished formal_events s =
      let formal = has_formal formal_events s in
      (not s.seen && not formal) || (formal && is_drained s)

  unfoldable pub ingest : List TimelineViewItem → Buffer → Buffer × Change
  unfolding upsert_all rebuild unchanged
  ingest authoritative b =
      let formal_events = events_of authoritative in
      let unseen = map (λ e. (e.0, record (e.1) { seen = false })) b.streams in
      let (streams, updated) = upsert_all (values (partials_of authoritative [])) unseen in
      let kept = filter (λ e. not (is_finished formal_events e.1)) streams in
      let b' : Buffer = record b { authoritative = authoritative; streams = kept } in
      let needs_snapshot =
        not (same_non_stream_tokens b.rendered_non_stream_tokens (non_stream_tokens authoritative))
        || (updated || any (λ e. is_finished formal_events e.1) streams) in
      if needs_snapshot then rebuild b.displayed formal_events true b' else unchanged b'

  reset_all : List TimelineViewItem → JsMap String StreamState → JsMap String StreamState
  reset_all [] streams = streams
  reset_all (partial_item v ∷ items) streams =
      reset_all items (JsMap.set streams v.partial.partial_id (reset_stream segment_text v))
  reset_all (event_item e ∷ items) streams = reset_all items streams
  reset_all (pending_item p ∷ items) streams = reset_all items streams

  unfoldable pub reset : List TimelineViewItem → Buffer → Buffer × Change
  unfolding reset_all rebuild
  reset authoritative b =
      let formal_events = events_of authoritative in
      let streams = filter (λ e. not (has_formal formal_events e.1)) (reset_all authoritative []) in
      rebuild b.displayed formal_events true
        (record b { authoritative = authoritative; streams = streams })

  unfoldable pub advance_streams : JsMap String StreamState → JsMap String StreamState × Bool
  advance_streams [] = ([], false)
  advance_streams ((id, s) ∷ streams) =
      let (s', changed) = advance_stream s in
      let (streams', others_changed) = advance_streams streams in
      ((id, s') ∷ streams', changed || others_changed)

  unfoldable pub advance : Buffer → Buffer × Change
  unfolding advance_streams rebuild unchanged
  advance b =
      let formal_events = events_of b.authoritative in
      let (streams, changed) = advance_streams b.streams in
      let ends = λ (e : String × StreamState). has_formal formal_events e.1 && is_drained e.1 in
      let b' : Buffer = record b { streams = filter (λ e. not (ends e)) streams } in
      if changed || any ends streams
      then rebuild b.displayed formal_events true b'
      else unchanged b'
