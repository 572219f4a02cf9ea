-- ===== src/Pairing/Steps.antt =====
-- qr.ts: each method of QRSession on a token that is reserved.
use remote_pi.Base.{
  ℕ, ◌+◌, ◌≤◌, String, ◌≡◌, sym, ◌∙◌, inl, inr, Bool, true, false, not, ◌||◌, some, arith,
  Bool-cases, ltb, ◌&&◌,
}
use remote_pi.Base.Equality.{◌==◌, string_eq, nat_eq}
use remote_pi.Pairing.{
  TokenReservation, ReservationStatus, reserved, released, committed, QrSession, ReserveResult,
  unless_over, reserve_own, reserve_token, holds, in_time, commit_token, release_token,
  consume_token,
}
use remote_pi.Pairing.Bound.{BoundActive, active, count, is_committed, both_true, Keeps}

module _ (token owner_id request_id : String) where
  abbrev session : String → ℕ → Bool → TokenReservation → ReservationStatus → ℕ → QrSession
  session t expires consumed r st objects = record {
    active = some (active t expires consumed r st);
    objects = objects;
  }

  module _ (t : String) (expires : ℕ) (consumed : Bool) (r : TokenReservation) (objects : ℕ)
      (same_token : t ≡ token) (same_owner : r.owner_id ≡ owner_id)
      (same_request : r.request_id ≡ request_id) where
    bound : BoundActive token owner_id request_id (some (active t expires consumed r released))
    bound = (same_token, (same_owner, same_request))

    unless_over-Keeps :
        (now : ℕ) (owner request : String) (st : ReservationStatus)
        (otherwise : QrSession × ReserveResult)
        → Keeps token owner_id request_id (some (active t expires consumed r st)) otherwise.0 false
        → Keeps token owner_id request_id
            (some (active t expires consumed r st))
            (unless_over now owner request
              (active t expires consumed r st)
              (session t expires consumed r st objects)
              otherwise).0
            false
    unfolding Keeps
    unless_over-Keeps now owner request st otherwise h = elim (Bool-cases (ltb expires now)) [
      | inl e ↦ rw e (bound, omega arith)
      | inr e ↦
          rw e elim (Bool-cases consumed) [ inl c ↦ rw c (bound, omega arith) | inr c ↦ rw c h ]
    ]

    reserve_own-Keeps :
        (now : ℕ) (owner request : String) (st : ReservationStatus)
        → owner ≡ owner_id
        → request ≡ request_id
        → let s : QrSession = session t expires consumed r st objects in
          Keeps token owner_id request_id s.active
            (reserve_own now owner request (active t expires consumed r st) r st s).0
            false
    unfolding Keeps
    reserve_own-Keeps now owner request (committed completion) o q = (bound, omega arith)
    reserve_own-Keeps now owner request reserved o q =
        unless_over-Keeps now owner request reserved _ (bound, omega arith)
    reserve_own-Keeps now owner request released o q =
        unless_over-Keeps now owner request released _ ((same_token, (o, q)), omega arith)

    pub commit_state-Keeps :
        (now : ℕ) (r' : TokenReservation) (completion : String) (st : ReservationStatus)
        → let s : QrSession = session t expires consumed r st objects in
          let result : QrSession × Bool = commit_token now r' completion s in
          Keeps token owner_id request_id s.active result.0 result.1
    unfolding Keeps commit_token
    commit_state-Keeps now r' completion (committed c) = elim (Bool-cases (r.object == r'.object)) [
      | inl e ↦ rw e (bound, omega arith)
      | inr e ↦ rw e (bound, omega arith)
    ]
    commit_state-Keeps now r' completion released = elim (Bool-cases (r.object == r'.object)) [
      | inl e ↦ rw e (bound, omega arith)
      | inr e ↦ rw e (bound, omega arith)
    ]
    commit_state-Keeps now r' completion reserved =
        elim (Bool-cases (
          (r.object == r'.object && true)
          && in_time now r' (active t expires consumed r reserved))) [
            | inl e ↦ rw e (bound, omega arith)
            | inr e ↦ rw e (bound, omega arith)
          ]

    pub release-Keeps :
        (r' : TokenReservation) (st : ReservationStatus)
        → let s : QrSession = session t expires consumed r st objects in
          Keeps token owner_id request_id s.active (release_token r' s).0 false
    unfolding Keeps release_token
    release-Keeps r' st = elim (Bool-cases (holds r' (record { reservation = r; status = st }))) [
      | inl e ↦ rw e (bound, released_weight st e)
      | inr e ↦ rw e (bound, omega arith)
    ]
      where
        released_weight :
            (st : ReservationStatus)
            → holds r' (record { reservation = r; status = st }) ≡ true
            → 0 + count (is_committed st) ≤ 0
        released_weight reserved e = omega arith
        released_weight released e = omega arith
        released_weight (committed c) e = elim (Bool-cases (r.object == r'.object)) [
          | inl x ↦ absurd (ground (arith, x, e))
          | inr x ↦ absurd (ground (arith, x, e))
        ]

    pub reserve-Keeps :
        (now : ℕ) (owner request token' : String) (st : ReservationStatus)
        → let s : QrSession = session t expires consumed r st objects in
          Keeps token owner_id request_id s.active
            (reserve_token now owner request token' s).0
            false
    unfolding Keeps reserve_token
    reserve-Keeps now owner request token' st = elim (Bool-cases (t == token')) [
      | inr e ↦ rw e (bound, omega arith)
      | inl e ↦
          rw e elim (Bool-cases (not (r.owner_id == owner) || not (r.request_id == request))) [
            | inl other ↦ rw other (bound, omega arith)
            | inr own ↦ rw own (
                reserve_own-Keeps now owner request st
                  (sym ((string_eq.same_iff r.owner_id owner).0 (both_true _ _ own).0) ∙ same_owner)
                  (sym ((string_eq.same_iff r.request_id request).0 (both_true _ _ own).1)
                    ∙ same_request))
          ]
    ]

    pub consume-Keeps :
        (now : ℕ) (token' : String) (st : ReservationStatus)
        → let s : QrSession = session t expires consumed r st objects in
          Keeps token owner_id request_id s.active (consume_token now token' s).0 false
    unfolding Keeps consume_token
    consume-Keeps now token' st = elim (Bool-cases (t == token')) [
      | inr e ↦ rw e (bound, omega arith)
      | inl e ↦ rw e elim (Bool-cases consumed) [
        | inl c ↦ rw c (bound, omega arith)
        | inr c ↦ rw c (bound, omega arith)
      ]
    ]
