-- ===== src/Pairing/Bound.antt =====
-- qr.ts: a token that was reserved stays with its owner and request, and is committed once at most.
use remote_pi.Base.{
  ℕ, ◌+◌, ◌≤◌, String, ◌≡◌, refl, Bool, true, false, not, ◌||◌, Option, none, some, List, [], ◌∷◌,
  arith,
}
use remote_pi.Base.Equality.{string_eq, nat_eq}
use remote_pi.Pairing.{
  TokenReservation, ReservationStatus, reserved, released, committed, ReservationState, ActiveToken,
  QrSession, reserve_token, commit_token, release_token, consume_token,
}

-- The calls on a token that is not replaced or cleared.
pub data Call : Type 0 where
  reserve : ℕ → String → String → String → Call
  commit : ℕ → TokenReservation → String → Call
  release : TokenReservation → Call
  consume : ℕ → String → Call

-- The session after a call, and whether the call committed.
unfoldable pub run_call : Call → QrSession → QrSession × Bool
run_call (reserve now owner_id request_id token) s =
    ((reserve_token now owner_id request_id token s).0, false)
run_call (commit now r completion) s = commit_token now r completion s
run_call (release r) s = ((release_token r s).0, false)
run_call (consume now token) s = ((consume_token now token s).0, false)

abbrev pub count : Bool → ℕ
count true = 1
count false = 0

-- The session after the calls, and how many of them committed.
unfoldable pub run_calls : List Call → QrSession → QrSession × ℕ
run_calls [] s = (s, 0)
run_calls (c ∷ calls) s =
    let (s', done) = run_call c s in
    let (s'', commits) = run_calls calls s' in (s'', count done + commits)

abbrev pub BoundState : String → String → Option ReservationState → Type 0
BoundState owner_id request_id none = ⊥
BoundState owner_id request_id (some state) =
    (state.reservation.owner_id ≡ owner_id) × (state.reservation.request_id ≡ request_id)

-- The token is active, and reserved for the owner and the request, now or before.
abbrev pub BoundActive : String → String → String → Option ActiveToken → Type 0
BoundActive token owner_id request_id none = ⊥
BoundActive token owner_id request_id (some a) =
    (a.token ≡ token) × BoundState owner_id request_id a.reservation

abbrev pub is_committed : ReservationStatus → Bool
is_committed (committed completion) = true
is_committed reserved = false
is_committed released = false

-- How many commits the state has seen: 1 if it is committed.
abbrev pub weight_state : Option ReservationState → ℕ
weight_state none = 0
weight_state (some state) = count (is_committed state.status)

abbrev pub weight : Option ActiveToken → ℕ
weight none = 0
weight (some a) = weight_state a.reservation

pub weight_le : (o : Option ActiveToken) → weight o ≤ 1
weight_le none = omega arith
weight_le (some a) = go a.reservation
  where
    go : (o : Option ReservationState) → weight_state o ≤ 1
    go none = omega arith
    go (some state) = end (is_committed state.status)
      where
        end : (b : Bool) → count b ≤ 1
        end true = omega arith
        end false = omega arith

abbrev pub active : String → ℕ → Bool → TokenReservation → ReservationStatus → ActiveToken
active t expires consumed r st = record {
  token = t;
  expires_at = expires;
  consumed = consumed;
  reservation = some (record { reservation = r; status = st });
}

pub both_true : (a b : Bool) → (not a || not b) ≡ false → (a ≡ true) × (b ≡ true)
both_true true true h = (refl, refl)
both_true true false h = absurd (ground (arith, h))
both_true false b h = absurd (ground (arith, h))

module _ (token owner_id request_id : String) where
  -- The token stays bound, and a commit shows in the state.
  unfoldable pub Keeps : Option ActiveToken → QrSession → Bool → Type 0
  Keeps before s done =
      BoundActive token owner_id request_id s.active
      × (count done + weight before ≤ weight s.active)
