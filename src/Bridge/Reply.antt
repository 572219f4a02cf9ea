-- ===== src/Bridge/Reply.antt =====
-- session_new_bridge.ts: what a request is answered.
use native.Mathlib.Nat.{zero-add}
use mathlib.Core.Option.{some-injective}
use remote_pi.Base.{
  ℕ, suc, ◌+◌, ◌≤◌, String, ◌≡◌, refl, sym, ap, ◌∙◌, inl, inr, Bool, true, false, ◌||◌, some, List,
  [], ◌∷◌, arith, length, ltb, Option-cases, Bool-cases, if◌then◌else◌, ◌&&◌,
}
use remote_pi.Base.Equality.{◌==◌, nat_eq, string_eq}
use remote_pi.Base.JsMap
use remote_pi.Base.JsMap.{JsMap}
use remote_pi.Bridge.{
  Message, PendingSessionNew, Effect, send, Bridge, Dispatch, dispatch, after_dispatch, clear_all,
  run_start, run_end, complete, fail, before_switch, clear, SwitchReason, initial,
}

-- The public methods, and what the environment makes happen: a timer or a rejected dispatch fails a
-- pending request, `handleSessionNew` replies, and `run` ends.
pub data Call : Type 0 where
  dispatch_call : Bool → String → ℕ → String → Dispatch → Call
  run_start_call : String → Call
  run_end_call : Call
  complete_call : String → ℕ → Message → Call
  switch_call : SwitchReason → Call
  clear_call : String → Call

unfoldable pub run_call : Call → Bridge → Bridge
run_call (dispatch_call has_pi token sender frame_id outcome) b =
    dispatch has_pi token sender frame_id outcome b
run_call (run_start_call token) b = run_start token b
run_call run_end_call b = run_end b
run_call (complete_call token reference message) b = complete token reference message b
run_call (switch_call reason) b = (before_switch reason b).0
run_call (clear_call error) b = clear error b

unfoldable pub run_calls : List Call → Bridge → Bridge
run_calls [] b = b
run_calls (c ∷ calls) b = run_calls calls (run_call c b)

module _ (sender : ℕ) (frame_id : String) where
  -- 1 if it is this sender and this frame id.
  abbrev pub one : ℕ → String → ℕ
  one s f = if s == sender && f == frame_id then 1 else 0

  -- The calls that request something of this sender under this frame id.
  abbrev pub counted : Call → ℕ
  counted (dispatch_call _ _ s f _) = one s f
  counted _ = 0

  abbrev pub requests : List Call → ℕ
  requests [] = 0
  requests (c ∷ calls) = counted c + requests calls

  -- The replies to this sender for this frame id.
  abbrev pub replies : List Effect → ℕ
  replies [] = 0
  replies (send s f _ ∷ effects) = one s f + replies effects
  replies (_ ∷ effects) = replies effects

  abbrev pub pendings : JsMap String PendingSessionNew → ℕ
  pendings [] = 0
  pendings ((_, p) ∷ m) = one p.sender p.frame_id + pendings m

  -- At most one request is pending, and this many are replied to or pending.
  record Accounts (n : ℕ) (b : Bridge) : Type 0 where
    single : length b.pending ≤ 1
    exact : replies b.log + pendings b.pending ≡ n

  pendings-delete :
      (m : JsMap String PendingSessionNew) (k : String) (p : PendingSessionNew)
      → length m ≤ 1
      → JsMap.get m k ≡ some p
      → (length (JsMap.delete m k) ≤ 1)
        × (one p.sender p.frame_id + pendings (JsMap.delete m k) ≡ pendings m)
  unfolding JsMap.get JsMap.delete
  pendings-delete [] k p single found = cc
  pendings-delete ((j, q) ∷ []) k p single found = elim (Bool-cases (j == k)) [
    | inl same ↦
        rw same
          let e = some-injective q p (rw same at found) in
            (omega arith, ap (λ (x : PendingSessionNew). one x.sender x.frame_id + 0) (sym e))
    | inr other ↦ cc (rw other at found)
  ]
  pendings-delete (e ∷ e' ∷ m) k p single found = absurd (omega arith)

  -- A pending request that is replaced by one of the same sender and frame.
  pendings-set :
      (m : JsMap String PendingSessionNew) (k : String) (p p' : PendingSessionNew)
      → JsMap.get m k ≡ some p
      → one p'.sender p'.frame_id ≡ one p.sender p.frame_id
      → (length (JsMap.set m k p') ≡ length m) × (pendings (JsMap.set m k p') ≡ pendings m)
  unfolding JsMap.get JsMap.set
  pendings-set [] k p p' found same = cc
  pendings-set ((j, q) ∷ m) k p p' found same = elim (Bool-cases (j == k)) [
    | inl here ↦
        rw here
          let e = some-injective q p (rw here at found) in
            (
              refl,
              ap (λ n. n + pendings m)
                  (same ∙ ap (λ (x : PendingSessionNew). one x.sender x.frame_id) (sym e)),
            )
    | inr other ↦
        rw other
          let rest = pendings-set m k p p' (rw other at found) same in
            (ap suc rest.0, ap (λ n. one q.sender q.frame_id + n) rest.1)
  ]

  pendings-set_empty :
      (m : JsMap String PendingSessionNew) (k : String) (p : PendingSessionNew)
      → length m ≡ 0
      → (length (JsMap.set m k p) ≡ 1)
        × (pendings (JsMap.set m k p) ≡ one p.sender p.frame_id + pendings m)
  pendings-set_empty [] k p h = unfold JsMap.set in (refl, refl)
  pendings-set_empty (e ∷ m) k p h = absurd (omega arith)

  complete-Accounts :
      (token : String) (reference n : ℕ) (message : Message) (b : Bridge)
      → Accounts n b
      → Accounts n (complete token reference message b)
  unfolding complete
  complete-Accounts token reference n message b h =
      elim (Option-cases (JsMap.get b.pending token)) [
        | inl absent ↦ rw absent h
        | inr (p, found) ↦
            rw found
              let deleted = pendings-delete b.pending token p h.single found in
                elim (Bool-cases (p.reference == reference)) [
                  | inl same ↦
                      rw same
                        (record { single = deleted.0; exact = omega (arith, h.exact, deleted.1) })
                  | inr other ↦ rw other h
                ]
      ]

  after_dispatch-Accounts :
      (token : String) (reference n : ℕ) (outcome : Dispatch) (b : Bridge)
      → Accounts n b
      → Accounts n (after_dispatch token reference outcome b)
  unfolding after_dispatch fail
  after_dispatch-Accounts token reference n Dispatch.dispatched b h = h
  after_dispatch-Accounts token reference n Dispatch.throws b h =
      complete-Accounts token reference n _ b h

  dispatch-Accounts :
      (has_pi : Bool) (token : String) (s : ℕ) (f : String) (outcome : Dispatch) (n : ℕ)
      (b : Bridge)
      → Accounts n b
      → Accounts (one s f + n) (dispatch has_pi token s f outcome b)
  unfolding dispatch
  dispatch-Accounts false token s f outcome n b h = record {
    single = h.single;
    exact = omega (arith, h.exact);
  }
  dispatch-Accounts true token s f outcome n b h =
      elim (Bool-cases (b.running || ltb 0 (length b.pending))) [
        | inl busy ↦ rw busy (record { single = h.single; exact = omega (arith, h.exact) })
        | inr free ↦
            rw free
              let p : PendingSessionNew = record {
                reference = b.next_reference;
                sender = s;
                frame_id = f;
                timer_set = true;
                running = false;
              } in
                let added = pendings-set_empty b.pending token p (ground (arith, free)) in
                after_dispatch-Accounts token b.next_reference (one s f + n) outcome _ (record {
                  single = omega (arith, added.0);
                  exact = omega (arith, h.exact, added.1);
                })
      ]

  run_start-Accounts :
      (token : String) (n : ℕ) (b : Bridge) → Accounts n b → Accounts n (run_start token b)
  unfolding run_start
  run_start-Accounts token n b h = elim (Option-cases (JsMap.get b.pending token)) [
    | inl absent ↦ rw absent h
    | inr (p, found) ↦
        rw found
          let p' : PendingSessionNew = record p { timer_set = false; running = true } in
            let kept = pendings-set b.pending token p p' found refl in
            elim (Bool-cases (p.running || b.running)) [
              | inl busy ↦ rw busy h
              | inr free ↦ rw free (record {
                single = omega (arith, h.single, kept.0);
                exact = omega (arith, h.exact, kept.1);
              })
            ]
  ]

  clear_all-Accounts :
      (error : String) (entries : JsMap String PendingSessionNew) (n : ℕ) (b : Bridge)
      → Accounts n b
      → Accounts n (clear_all error entries b)
  unfolding clear_all fail
  clear_all-Accounts error [] n b h = h
  clear_all-Accounts error ((token, p) ∷ entries) n b h =
      clear_all-Accounts error entries n _ (complete-Accounts token p.reference n _ b h)

  run_call-Accounts :
      (c : Call) (n : ℕ) (b : Bridge) → Accounts n b → Accounts (counted c + n) (run_call c b)
  unfolding run_call
  run_call-Accounts (dispatch_call has_pi token s f outcome) n b h =
      dispatch-Accounts has_pi token s f outcome n b h
  run_call-Accounts (run_start_call token) n b h = rw zero-add (run_start-Accounts token n b h)
  run_call-Accounts run_end_call n b h = unfold run_end in ground arith
  run_call-Accounts (complete_call token reference message) n b h =
      rw zero-add (complete-Accounts token reference n message b h)
  run_call-Accounts (switch_call reason) n b h = unfold before_switch in ground arith
  run_call-Accounts (clear_call error) n b h =
      unfold clear in rw zero-add (clear_all-Accounts error b.pending n b h)

  run_calls-Accounts :
      (calls : List Call) (n : ℕ) (b : Bridge)
      → Accounts n b
      → Accounts (requests calls + n) (run_calls calls b)
  unfolding run_calls
  run_calls-Accounts [] n b h = rw zero-add h
  run_calls-Accounts (c ∷ calls) n b h =
      let rest =
        run_calls-Accounts calls (counted c + n) (run_call c b) (run_call-Accounts c n b h) in
      record { single = rest.single; exact = omega (arith, rest.exact) }

  -- Whatever calls a new bridge is given, and whenever timers fire, dispatches fail, `newSession`
  -- replies or the bridge is cleared: the replies to a sender for a frame id, and its requests under
  -- that id that are still pending, are together exactly the requests it made under that id. At most
  -- one request is pending.
  pub run_calls_answers_once :
      (calls : List Call)
      → let b = run_calls calls initial in
        (replies b.log + pendings b.pending ≡ requests calls) × (length b.pending ≤ 1)
  run_calls_answers_once calls =
      let h = run_calls-Accounts calls 0 initial (record { single = omega arith; exact = refl }) in
      (omega (arith, h.exact), h.single)
