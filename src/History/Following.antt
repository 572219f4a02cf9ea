-- ===== src/History/Following.antt =====
-- history.ts: a client that loads the whole history, page after page.
use remote_pi.Base.{
  ℕ, zero, suc, ◌+◌, ◌≤◌, String, ◌≡◌, refl, inl, inr, true, Option, none, some, List, [], ◌∷◌,
  length, arith, is_some, Bool-cases,
}
use remote_pi.Base.Equality.{string_eq}
use remote_pi.History.{Host, Request, ServerFrame, Pager, Protocol}
use remote_pi.History.Sync.{sync_before, sync}
use remote_pi.History.Paging.{
  next_of, Issued, Descends, sync_cursor-Descends, sync_initial-Descends,
}

abbrev cons_answer :
    List ServerFrame → Option (List (List ServerFrame)) → Option (List (List ServerFrame))
cons_answer frames none = none
cons_answer frames (some answers) = some (frames ∷ answers)

-- The answer is the last if it names no cursor.
abbrev after_answer :
    List ServerFrame
    → Option String
    → (String → Option (List (List ServerFrame)))
    → Option (List (List ServerFrame))
after_answer frames none more = some (frames ∷ [])
after_answer frames (some t) more = cons_answer frames (more t)

after_answer-some :
    (frames : List ServerFrame) (o : Option String)
    (more : String → Option (List (List ServerFrame)))
    → ((t : String) → o ≡ some t → is_some (more t) ≡ true)
    → is_some (after_answer frames o more) ≡ true
after_answer-some frames none more h = refl
after_answer-some frames (some t) more h = go (more t) (h t refl)
  where
    go :
        (o : Option (List (List ServerFrame)))
        → is_some o ≡ true
        → is_some (cons_answer frames o) ≡ true
    go none e = absurd (ground (arith, e))
    go (some answers) e = refl

module _ (protocol : Protocol) (request : Request) (hosts : ℕ → Host) (tokens : ℕ → String) where
  -- The answers to requests for `before` and then for each cursor that an answer names, or nothing
  -- where `fuel` requests do not do. The host and the random token of the request `i` are given.
  unfoldable pub follow : ℕ → ℕ → Pager → Option String → Option (List (List ServerFrame))
  follow zero i pager before = none
  follow (suc fuel) i pager before =
      let answer = sync protocol (hosts i) (tokens i) (record request { before = before }) pager in
      after_answer answer.1 (next_of answer.1) (λ t. follow fuel (i + 1) answer.0 (some t))

  follow-Issued :
      (fuel i position : ℕ) (pager : Pager) (k : String)
      → Issued position k pager
      → position ≤ fuel
      → is_some (follow fuel i pager (some k)) ≡ true
  unfolding follow sync
  follow-Issued zero i position pager k issued enough =
      absurd (omega (arith, issued.earlier, enough))
  follow-Issued (suc fuel) i position pager k issued enough =
      let asked : Request = record request { before = some k } in
      let answer = sync_before protocol (hosts i) (tokens i) asked pager (some k) in
      let descends : Descends issued.cursor.position answer =
        rw (issued.found)
          (sync_cursor-Descends protocol (hosts i) (tokens i) asked pager k issued.cursor) in
      after_answer-some answer.1 (next_of answer.1) (λ t. follow fuel (i + 1) answer.0 (some t))
        (λ t. λ named.
          follow-Issued fuel (i + 1) issued.cursor.position answer.0 t (descends t named)
            (omega (arith, issued.earlier, enough)))

  first_answer-Descends :
      (asked : Request) (pager : Pager)
      → Descends
          (length (hosts 0).session.branch)
          (sync_before protocol (hosts 0) (tokens 0) asked pager none)
  first_answer-Descends asked pager =
      let started : Pager = record pager { initial_busy = true } in
      elim (Bool-cases pager.initial_busy) [
        | inl busy ↦ rw busy (λ t. λ named. absurd (ground arith))
        | inr free ↦ rw free (λ t. λ named.
            let issued =
              sync_initial-Descends protocol (hosts 0) (tokens 0) asked started t named in
            record { cursor = issued.cursor; found = issued.found; earlier = issued.earlier })
      ]

  -- A client that follows the cursors reaches a last page. Whatever sessions the host has when the
  -- requests come, whatever tokens are drawn and whatever the pager holds, at most one more request
  -- than the first session's branch has entries is answered before an answer names no cursor.
  pub follow-some :
      (pager : Pager) → is_some (follow (suc (length (hosts 0).session.branch)) 0 pager none) ≡ true
  unfolding follow sync
  follow-some pager =
      let asked : Request = record request { before = none } in
      let answer = sync_before protocol (hosts 0) (tokens 0) asked pager none in
      after_answer-some answer.1 (next_of answer.1)
        (λ t. follow (length (hosts 0).session.branch) 1 answer.0 (some t))
        (λ t. λ named.
          follow-Issued (length (hosts 0).session.branch) 1 (length (hosts 0).session.branch)
            answer.0 t (first_answer-Descends asked pager t named) (omega arith))
