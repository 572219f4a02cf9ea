-- ===== src/History/SingleUse.antt =====
-- history.ts: cursors that were used.
use remote_pi.Base.{
  String, ◌≡◌, refl, true, false, Option, none, some, List, [], ◌∷◌, All, inl, inr, Bool-cases, ◌∙◌,
}
use remote_pi.Base.Equality.{◌==◌, ==_self, string_eq}
use remote_pi.Base.JsMap.{get, set, get-set}
use remote_pi.History.{Host, Request, CursorState, invalid_cursor, reset, Pager, Protocol}
use remote_pi.History.Sync.{
  Answer, release, use_cursor, sync_cursor, sync_before, Step, step, sync_all, sync, released,
}
use remote_pi.History.Kept.{use_cursor-Keeps, sync_initial-Keeps}

-- A cursor that is not busy, and one that was used.
abbrev pub IsFree : Option CursorState → Type 0
IsFree none = Unit
IsFree (some cursor) = cursor.busy ≡ false

abbrev pub IsSpent : Option CursorState → Type 0
IsSpent none = Unit
IsSpent (some cursor) = (cursor.used ≡ true) × (cursor.busy ≡ false)

module _ (protocol : Protocol) (host : Host) (token : String) (request : Request) where
  -- The cursor that a request took is spent when it is released.
  release-IsSpent :
      (before : String) (answer : Answer) (taken : CursorState)
      → get answer.0.cursors before ≡ some taken
      → taken.used ≡ true
      → IsSpent (get (release protocol host token request before answer).0.cursors before)
  release-IsSpent before answer taken found used = rw found (
      rw (get-set answer.0.cursors before before (record taken { busy = false }), ==_self before)
        (used, refl))

  release-other :
      (before k : String) (answer : Answer) (o : Option CursorState)
      → (before == k) ≡ false
      → get (released protocol host token request o before answer.0).cursors k
        ≡ get answer.0.cursors k
  release-other before k answer none other = refl
  release-other before k answer (some cursor) other =
      rw (get-set answer.0.cursors before k (record cursor { busy = false }), other) refl

  -- A request for an unused cursor leaves the cursor spent.
  sync_cursor-IsSpent :
      (pager : Pager) (k : String) (o : Option CursorState)
      → IsFree o
      → get pager.cursors k ≡ o
      → (token == k) ≡ false
      → IsSpent (get (sync_cursor protocol host token request pager k o).0.cursors k)
  unfolding sync_cursor
  sync_cursor-IsSpent pager k none free found other = rw found tt
  sync_cursor-IsSpent pager k (some cursor) free found other =
      let taken : CursorState = record cursor { busy = true; used = true } in
      let pager' : Pager = record pager { cursors = set pager.cursors k taken } in
      let kept = use_cursor-Keeps protocol host token request k pager' taken other in
      elim (Bool-cases cursor.used) [
        | inl used ↦ rw (free, used) (rw found (used, free))
        | inr unused ↦
            rw (free, unused)
              (release-IsSpent k (use_cursor protocol host token request pager' taken) taken
                (kept ∙ rw (get-set pager.cursors k k taken, ==_self k) refl) refl)
      ]

  -- A request for another cursor leaves this one as it was.
  sync_cursor-other :
      (pager : Pager) (j k : String) (o : Option CursorState)
      → (j == k) ≡ false
      → (token == k) ≡ false
      → get (sync_cursor protocol host token request pager j o).0.cursors k ≡ get pager.cursors k
  unfolding sync_cursor
  sync_cursor-other pager j k none apart other = refl
  sync_cursor-other pager j k (some cursor) apart other =
      let taken : CursorState = record cursor { busy = true; used = true } in
      let pager' : Pager = record pager { cursors = set pager.cursors j taken } in
      let answer = use_cursor protocol host token request pager' taken in
      let kept = use_cursor-Keeps protocol host token request k pager' taken other in
      let freed = release-other j k answer (get answer.0.cursors j) apart in
      let before : get pager'.cursors k ≡ get pager.cursors k =
        rw (get-set pager.cursors j k taken, apart) refl in
      elim (Bool-cases cursor.busy) [
        | inl busy ↦ rw busy refl
        | inr idle_cursor ↦ elim (Bool-cases cursor.used) [
          | inl used ↦ rw (idle_cursor, used) refl
          | inr unused ↦ rw (idle_cursor, unused) (freed ∙ kept ∙ before)
        ]
      ]

  spent_cursor :
      (pager : Pager) (k : String) (o : Option CursorState)
      → IsSpent o
      → sync_cursor protocol host token request pager k o ≡ (
        pager,
        reset request.target_channel_id host.session.session_id host.session.history_generation
              invalid_cursor
            ∷ [],
      )
  unfolding sync_cursor
  spent_cursor pager k none spent = refl
  spent_cursor pager k (some cursor) (used, free) = rw (free, used) refl

  sync_before-IsSpent :
      (pager : Pager) (before : Option String) (k : String)
      → IsSpent (get pager.cursors k)
      → (token == k) ≡ false
      → IsSpent (get (sync_before protocol host token request pager before).0.cursors k)
  sync_before-IsSpent pager none k spent other = elim (Bool-cases pager.initial_busy) [
    | inl busy ↦ rw busy spent
    | inr free ↦ rw free (
        rw
          (sync_initial-Keeps protocol host token request k (record pager { initial_busy = true })
            other)
          spent)
  ]
  sync_before-IsSpent pager (some j) k spent other = elim (Bool-cases (j == k)) [
    | inl same ↦
        rw ((string_eq.same_iff j k).0 same, spent_cursor pager k (get pager.cursors k) spent) spent
    | inr apart ↦ rw (sync_cursor-other pager j k (get pager.cursors j) apart other) spent
  ]

module _ (protocol : Protocol) (host : Host) (token : String) (request : Request) where
  named-IsSpent :
      (pager : Pager) (k : String) (before : Option String)
      → before ≡ some k
      → IsFree (get pager.cursors k)
      → (token == k) ≡ false
      → IsSpent (get (sync_before protocol host token request pager before).0.cursors k)
  named-IsSpent pager k before named free other = rw named (
      sync_cursor-IsSpent protocol host token request pager k (get pager.cursors k) free refl other)

  named_spent :
      (pager : Pager) (k : String) (before : Option String)
      → before ≡ some k
      → IsSpent (get pager.cursors k)
      → sync_before protocol host token request pager before ≡ (
        pager,
        reset request.target_channel_id host.session.session_id host.session.history_generation
              invalid_cursor
            ∷ [],
      )
  named_spent pager k before named spent =
      rw named (spent_cursor protocol host token request pager k (get pager.cursors k) spent)

sync_all-IsSpent :
    (protocol : Protocol) (steps : List Step) (pager : Pager) (k : String)
    → IsSpent (get pager.cursors k)
    → All (λ (s : Step). (s.token == k) ≡ false) steps
    → IsSpent (get (sync_all protocol steps pager).cursors k)
unfolding sync_all step sync
sync_all-IsSpent protocol [] pager k spent others = spent
sync_all-IsSpent protocol (s ∷ steps) pager k spent others =
    sync_all-IsSpent protocol steps (step protocol s pager).0 k
      (sync_before-IsSpent protocol s.host s.token s.request pager s.request.before k spent
        others.0)
      others.1

-- A cursor serves one page. Take a pager in which the cursor `k` is not busy, or is unknown, a request
-- for it, and any other requests after it, from any host, none of which draws the token `k` again.
-- Whatever these were answered, a later request for `k` is answered by a reset for an invalid cursor
-- and nothing else, and it changes nothing.
pub step-spent_cursor :
    (protocol : Protocol) (pager : Pager) (k : String) (first : Step) (steps : List Step)
    (later : Step)
    → IsFree (get pager.cursors k)
    → first.request.before ≡ some k
    → later.request.before ≡ some k
    → All (λ (s : Step). (s.token == k) ≡ false) (first ∷ steps)
    → let pager' = sync_all protocol (first ∷ steps) pager in
      let session = later.host.session in
      step protocol later pager' ≡ (
        pager',
        reset later.request.target_channel_id session.session_id session.history_generation
              invalid_cursor
            ∷ [],
      )
unfolding sync_all step sync
step-spent_cursor protocol pager k first steps later free of_first of_later others =
    let answer = step protocol first pager in
    let spent =
      named-IsSpent protocol first.host first.token first.request pager k first.request.before
        of_first free others.0 in
    let later_spent = sync_all-IsSpent protocol steps answer.0 k spent others.1 in
    named_spent protocol later.host later.token later.request (sync_all protocol steps answer.0) k
      later.request.before of_later later_spent
