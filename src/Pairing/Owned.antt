-- ===== src/Pairing/Owned.antt =====
-- qr.ts: the calls of QRSession on a token that is reserved, in any order.
use remote_pi.Base.{
  ℕ, ◌+◌, ◌≤◌, String, ◌≡◌, refl, sym, ◌∙◌, inl, inr, Bool, not, ◌||◌, Option, none, some, List, [],
  ◌∷◌, arith, Bool-cases,
}
use remote_pi.Base.Equality.{◌==◌, string_eq, nat_eq}
use remote_pi.Pairing.{ReservationState, ActiveToken, QrSession, token_consumed, reserve_token}
use remote_pi.Pairing.Bound.{
  Call, reserve, commit, release, consume, run_call, run_calls, BoundState, BoundActive, weight,
  weight_le, both_true, Keeps,
}
use remote_pi.Pairing.Steps.{commit_state-Keeps, release-Keeps, reserve-Keeps, consume-Keeps}

module _ (token owner_id request_id : String) where
  run_call-Keeps :
      (c : Call) (s : QrSession)
      → BoundActive token owner_id request_id s.active
      → Keeps token owner_id request_id s.active (run_call c s).0 (run_call c s).1
  unfolding run_call
  run_call-Keeps c s h = in_active c s.active s.objects h
    where
      in_state :
          (c : Call) (t : String) (expires : ℕ) (consumed : Bool) (o : Option ReservationState)
          (objects : ℕ)
          → (t ≡ token) × BoundState owner_id request_id o
          → let s : QrSession = record {
            active =
                some (record {
                  token = t;
                  expires_at = expires;
                  consumed = consumed;
                  reservation = o;
                });
            objects = objects;
          } in
            Keeps token owner_id request_id s.active (run_call c s).0 (run_call c s).1
      in_state c t expires consumed none objects h = absurd h.1
      in_state (reserve now owner request token') t expires consumed (some state) objects h =
          reserve-Keeps token owner_id request_id t expires consumed state.reservation objects h.0
            h.1.0 h.1.1 now owner request token' state.status
      in_state (commit now r completion) t expires consumed (some state) objects h =
          commit_state-Keeps token owner_id request_id t expires consumed state.reservation objects
            h.0 h.1.0 h.1.1 now r completion state.status
      in_state (release r) t expires consumed (some state) objects h =
          release-Keeps token owner_id request_id t expires consumed state.reservation objects h.0
            h.1.0 h.1.1 r state.status
      in_state (consume now token') t expires consumed (some state) objects h =
          consume-Keeps token owner_id request_id t expires consumed state.reservation objects h.0
            h.1.0 h.1.1 now token' state.status

      in_active :
          (c : Call) (o : Option ActiveToken) (objects : ℕ)
          → BoundActive token owner_id request_id o
          → let s : QrSession = record { active = o; objects = objects } in
            Keeps token owner_id request_id o (run_call c s).0 (run_call c s).1
      in_active c none objects h = absurd h
      in_active c (some a) objects h =
          in_state c a.token a.expires_at a.consumed a.reservation objects h

  run_calls-Keeps :
      (calls : List Call) (s : QrSession)
      → BoundActive token owner_id request_id s.active
      → BoundActive token owner_id request_id (run_calls calls s).0.active
        × ((run_calls calls s).1 + weight s.active ≤ weight (run_calls calls s).0.active)
  unfolding run_calls Keeps
  run_calls-Keeps [] s h = (h, omega arith)
  run_calls-Keeps (c ∷ calls) s h =
      let first = run_call-Keeps c s h in
      let rest = run_calls-Keeps calls (run_call c s).0 first.0 in
      (rest.0, omega (arith, first.1, rest.1))

  reserve_token-IsRefused :
      (s : QrSession) (now : ℕ) (owner' request' : String)
      → BoundActive token owner_id request_id s.active
      → ¬ ((owner' ≡ owner_id) × (request' ≡ request_id))
      → reserve_token now owner' request' token s ≡ (s, token_consumed)
  unfolding reserve_token
  reserve_token-IsRefused s now owner' request' h other = in_active s.active s.objects h
    where
      in_state :
          (t : String) (expires : ℕ) (consumed : Bool) (o : Option ReservationState) (objects : ℕ)
          → (t ≡ token) × BoundState owner_id request_id o
          → let s : QrSession = record {
            active =
                some (record {
                  token = t;
                  expires_at = expires;
                  consumed = consumed;
                  reservation = o;
                });
            objects = objects;
          } in
            reserve_token now owner' request' token s ≡ (s, token_consumed)
      in_state t expires consumed none objects h = absurd h.1
      in_state t expires consumed (some state) objects h =
          rw ((string_eq.same_iff t token).1 h.0)
            elim (Bool-cases (
              not (state.reservation.owner_id == owner')
              || not (state.reservation.request_id == request'))) [
                | inl e ↦ rw e refl
                | inr e ↦
                    let same = both_true _ _ e in
                    absurd (
                      other (
                        sym ((string_eq.same_iff state.reservation.owner_id owner').0 same.0)
                            ∙ h.1.0,
                        sym ((string_eq.same_iff state.reservation.request_id request').0 same.1)
                            ∙ h.1.1,
                      ))
              ]

      in_active :
          (o : Option ActiveToken) (objects : ℕ)
          → BoundActive token owner_id request_id o
          → let s : QrSession = record { active = o; objects = objects } in
            reserve_token now owner' request' token s ≡ (s, token_consumed)
      in_active none objects h = absurd h
      in_active (some a) objects h =
          in_state a.token a.expires_at a.consumed a.reservation objects h

-- A token that is reserved for an owner and a request stays theirs through any reservations,
-- commits, releases and consumptions, at any times: no other request can reserve it, and at most
-- one commit succeeds.
pub run_calls-IsOwned :
    (token owner_id request_id : String) (s : QrSession)
    → BoundActive token owner_id request_id s.active
    → (calls : List Call) (now : ℕ) (owner' request' : String)
    → ¬ ((owner' ≡ owner_id) × (request' ≡ request_id))
    → BoundActive token owner_id request_id (run_calls calls s).0.active
      × ((reserve_token now owner' request' token (run_calls calls s).0
            ≡ ((run_calls calls s).0, token_consumed))
          × ((run_calls calls s).1 ≤ 1))
run_calls-IsOwned token owner_id request_id s h calls now owner' request' other =
    let kept = run_calls-Keeps token owner_id request_id calls s h in
    (
      kept.0,
      (
        reserve_token-IsRefused token owner_id request_id (run_calls calls s).0 now owner' request'
            kept.0 other,
        omega (arith, kept.1, weight_le (run_calls calls s).0.active),
      ),
    )
