-- ===== src/Display/Streams.antt =====
-- stream-display-buffer.ts: one stream, what a new snapshot makes of it, and a tick of the clock.
use remote_pi.Base.{
  ℕ, zero, suc, ◌+◌, ◌-◌, ◌/◌, min, max, Bool, true, false, not, ◌&&◌, Option, none, some, List, [],
  ◌∷◌, ◌++◌, length, ltb, leb, if◌then◌else◌,
}
use remote_pi.Base.Equality.{◌==◌, nat_eq}
use remote_pi.Display.Types.{
  Text, TimelinePartialView, text_equal, partial_text, has_blocks, streams_immediately,
}

abbrev pub drain_ticks : ℕ
drain_ticks = 8

abbrev pub max_release_per_tick : ℕ
max_release_per_tick = 64

pub record StreamState : Type 0 where
  pub partial : TimelinePartialView
  pub target_text : Text
  pub target_graphemes : List Text
  pub visible_count : ℕ
  pub visible_text : Text
  pub ticks : ℕ
  pub seen : Bool

-- `graphemes.slice(0, n).join("")`
abbrev pub join_first : ℕ → List Text → Text
join_first zero graphemes = []
join_first (suc n) [] = []
join_first (suc n) (g ∷ graphemes) = g ++ join_first n graphemes

unfoldable pub expected_visible_text : StreamState → Text
expected_visible_text s = join_first s.visible_count s.target_graphemes

unfoldable pub is_drained : StreamState → Bool
is_drained s =
    leb (length s.target_graphemes) s.visible_count && text_equal s.visible_text s.target_text

unfoldable pub projected_partial : StreamState → TimelinePartialView
projected_partial s =
    if has_blocks s.partial.partial
    then s.partial
    else record s.partial { partial = record (s.partial.partial) { delta = some s.visible_text } }

-- What follows the prefix, if it is one: `startsWith` and `slice`.
unfoldable pub strip_prefix : Text → Text → Option Text
strip_prefix [] text = some text
strip_prefix (x ∷ xs) [] = none
strip_prefix (x ∷ xs) (y ∷ ys) = let rest = strip_prefix xs ys in if x == y then rest else none

-- All but the last grapheme, and the last.
unfoldable pub pop : List Text → Option (List Text × Text)
pop [] = none
pop (g ∷ []) = some ([], g)
pop (g ∷ h ∷ gs) = elim (pop (h ∷ gs)) [ none ↦ none | some (front, last) ↦ some (g ∷ front, last) ]

-- The branch of `advance` where there is a backlog: how many graphemes are released at this tick.
unfoldable pub release : ℕ → ℕ → ℕ
release backlog ticks =
    let ticks_left = max 1 (drain_ticks + 1 - ticks) in
    min max_release_per_tick (max 1 ((backlog + ticks_left - 1) / ticks_left))

-- One stream under `advance`: the stream, and whether it changed.
unfoldable pub advance_stream : StreamState → StreamState × Bool
unfolding expected_visible_text
advance_stream s =
    let backlog = length s.target_graphemes - s.visible_count in
    if ltb 0 backlog
    then (
      let ticks = s.ticks + 1 in
          let count = min (length s.target_graphemes) (s.visible_count + release backlog ticks) in
          record s {
            ticks = ticks;
            visible_count = count;
            visible_text = join_first count s.target_graphemes;
          },
      true,
    )
    else if not (text_equal s.visible_text (expected_visible_text s))
    then (record s { visible_text = expected_visible_text s }, true)
    else (s, false)

module _ (segment_text : Text → List Text) where
  -- `appendTargetGraphemes`: the last grapheme is segmented again with what follows it.
  append_suffix : Text → Option (List Text × Text) → List Text
  append_suffix suffix none = segment_text suffix
  append_suffix suffix (some (front, last)) = front ++ segment_text (last ++ suffix)

  unfoldable pub append_target_graphemes : Text → List Text → List Text
  unfolding append_suffix
  append_target_graphemes suffix graphemes = append_suffix suffix (pop graphemes)

  -- A stream that `ingest` meets for the first time.
  unfoldable pub new_stream : TimelinePartialView → StreamState
  new_stream view =
      let target_text = partial_text view.partial in
      let graphemes = segment_text target_text in
      let immediate = streams_immediately view.partial in
      let count = if immediate then length graphemes else min 2 (length graphemes) in
      record {
        partial = view;
        target_text = target_text;
        target_graphemes = graphemes;
        visible_count = count;
        visible_text = join_first count graphemes;
        ticks = if immediate then drain_ticks else 0;
        seen = true;
      }

  -- The target changed, and is displayed bit by bit.
  retarget : Text → StreamState → Option Text → StreamState × Bool
  retarget target_text s (some suffix) =
      let graphemes = append_target_graphemes suffix s.target_graphemes in
      (
        record s {
          target_text = target_text;
          target_graphemes = graphemes;
          visible_count = min s.visible_count (length graphemes);
          ticks = 0;
        },
        false,
      )
  retarget target_text s none =
      let graphemes = segment_text target_text in
      let count = min 2 (length graphemes) in
      (
        record s {
          target_text = target_text;
          target_graphemes = graphemes;
          visible_count = count;
          visible_text = join_first count graphemes;
          ticks = 0;
        },
        true,
      )

  -- A stream that `ingest` knows, and whether a snapshot is needed.
  unfoldable pub update_stream : TimelinePartialView → StreamState → StreamState × Bool
  unfolding append_target_graphemes retarget
  update_stream view s =
      let target_text = partial_text view.partial in
      let immediate = streams_immediately view.partial in
      let graphemes = segment_text target_text in
      let (s', needs_snapshot) =
        if not (text_equal s.target_text target_text)
        then if immediate
          then (
            record s {
              target_text = target_text;
              target_graphemes = graphemes;
              visible_count = length graphemes;
              visible_text = target_text;
              ticks = drain_ticks;
            },
            true,
          )
          else retarget target_text s (strip_prefix s.target_text target_text)
        else if immediate && not (streams_immediately s.partial.partial)
        then (
          record s {
            visible_count = length s.target_graphemes;
            visible_text = target_text;
            ticks = drain_ticks;
          },
          true,
        )
        else (s, false) in
      (record s' { partial = view; seen = true }, needs_snapshot)

  -- A stream after `reset`.
  unfoldable pub reset_stream : TimelinePartialView → StreamState
  reset_stream view =
      let target_text = partial_text view.partial in
      let graphemes = segment_text target_text in
      record {
        partial = view;
        target_text = target_text;
        target_graphemes = graphemes;
        visible_count = length graphemes;
        visible_text = target_text;
        ticks = drain_ticks;
        seen = true;
      }
