-- ===== src/Display/Draining.antt =====
-- stream-display-buffer.ts: how fast a stream's backlog is displayed.
use native.Mathlib.Decide.{dec_lt}
use remote_pi.Base.{ℕ, zero, suc, ◌+◌, ◌-◌, ◌*◌, ◌≤◌, ◌<◌, ◌≡◌, arith, length}
use remote_pi.Display.Streams.{StreamState, advance_stream, release, join_first}

-- How many graphemes are still to be displayed.
abbrev pub backlog : StreamState → ℕ
backlog s = length s.target_graphemes - s.visible_count

unfoldable pub advance_times : ℕ → StreamState → StreamState
advance_times zero s = s
advance_times (suc n) s = advance_times n (advance_stream s).0

-- With `l` ticks to come after this one, the release leaves at most 64 graphemes for each of them.
release_enough :
    (l b t : ℕ) → t + suc l ≡ 8 → 0 < b → b ≤ 64 * suc l → b - release b (t + 1) ≤ 64 * l
unfolding release
release_enough zero b t e pos h = let is_t : t ≡ 7 = omega arith in rw is_t (omega arith)
release_enough (suc zero) b t e pos h = let is_t : t ≡ 6 = omega arith in rw is_t (omega arith)
release_enough (suc (suc zero)) b t e pos h =
    let is_t : t ≡ 5 = omega arith in rw is_t (omega arith)
release_enough (suc (suc (suc zero))) b t e pos h =
    let is_t : t ≡ 4 = omega arith in rw is_t (omega arith)
release_enough (suc (suc (suc (suc zero)))) b t e pos h =
    let is_t : t ≡ 3 = omega arith in rw is_t (omega arith)
release_enough (suc (suc (suc (suc (suc zero))))) b t e pos h =
    let is_t : t ≡ 2 = omega arith in rw is_t (omega arith)
release_enough (suc (suc (suc (suc (suc (suc zero)))))) b t e pos h =
    let is_t : t ≡ 1 = omega arith in rw is_t (omega arith)
release_enough (suc (suc (suc (suc (suc (suc (suc zero))))))) b t e pos h =
    let is_t : t ≡ 0 = omega arith in rw is_t (omega arith)
release_enough (suc (suc (suc (suc (suc (suc (suc (suc l)))))))) b t e pos h = absurd (omega arith)

-- A tick of a stream with a backlog: the tick is counted and the release displayed.
advance_stream-backlog :
    (s : StreamState)
    → 0 < backlog s
    → let s' = (advance_stream s).0 in
      (s'.ticks ≡ s.ticks + 1) × (backlog s' ≡ backlog s - release (backlog s) (s.ticks + 1))
unfolding advance_stream
advance_stream-backlog s pos = ground arith

advance_stream_drained : (s : StreamState) → backlog s ≡ 0 → backlog (advance_stream s).0 ≡ 0
unfolding advance_stream
advance_stream_drained s done = ground arith

advance_times_drained : (n : ℕ) (s : StreamState) → backlog s ≡ 0 → backlog (advance_times n s) ≡ 0
unfolding advance_times
advance_times_drained zero s done = done
advance_times_drained (suc n) s done =
    advance_times_drained n (advance_stream s).0 (advance_stream_drained s done)

-- A stream that was given new text `8 - n` ticks ago, and has at most 64 graphemes for each of the
-- `n` ticks that are left of the eight, has displayed all of them after `n` more ticks.
pub advance_times_drains :
    (n : ℕ) (s : StreamState)
    → s.ticks + n ≡ 8
    → backlog s ≤ 64 * n
    → backlog (advance_times n s) ≡ 0
unfolding advance_times
advance_times_drains zero s e h = omega arith
advance_times_drains (suc n) s e h = elim (dec_lt 0 (backlog s)) [
  | yes pos ↦
      let (ticked, released) = advance_stream-backlog s pos in
      advance_times_drains n (advance_stream s).0 (omega (arith, ticked))
        (omega (arith, released, release_enough n (backlog s) s.ticks e pos h))
  | no none_left ↦ advance_times_drained (suc n) s (omega arith)
]

-- A tick displays at least one and at most 64 graphemes of a backlog, never more than there are,
-- and what is displayed is then the first graphemes of the target.
pub advance_stream_paced :
    (s : StreamState)
    → 0 < backlog s
    → let s' = (advance_stream s).0 in
      (s.visible_count < s'.visible_count)
      × (s'.visible_count ≤ s.visible_count + 64)
      × (s'.visible_count ≤ length s.target_graphemes)
      × (s'.visible_text ≡ join_first s'.visible_count s.target_graphemes)
unfolding advance_stream release
advance_stream_paced s pos = (ground arith, ground arith, ground arith, ground arith)
