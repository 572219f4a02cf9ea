-- ===== src/Pairing.antt =====
-- pi-extension/src/pairing/qr.ts: the token of the pairing code, QRSession.
pub mod Bound
pub mod Owned
pub mod Steps
use remote_pi.Base.{
  ℕ, ◌+◌, String, Bool, true, false, not, ◌&&◌, ◌||◌, Option, none, some, min, max, ltb,
  if◌then◌else◌, is_some,
}
use remote_pi.Base.Equality.{◌==◌, string_eq, nat_eq}

abbrev pub token_ttl_ms : ℕ
token_ttl_ms = 60000

abbrev pub pair_ttl_min_ms : ℕ
pair_ttl_min_ms = 10000

abbrev pub pair_ttl_max_ms : ℕ
pair_ttl_max_ms = 600000

-- `none` is a number that is not finite; the others are whole and not negative.
unfoldable pub clamp_pair_ttl_ms : Option ℕ → ℕ
clamp_pair_ttl_ms none = token_ttl_ms
clamp_pair_ttl_ms (some ttl_ms) = min pair_ttl_max_ms (max pair_ttl_min_ms ttl_ms)

-- `object` is the reference of the reservation, by which two are compared.
pub record TokenReservation : Type 0 where
  pub object : ℕ
  pub token : String
  pub owner_id : String
  pub request_id : String

-- A committed reservation has its completion.
pub data ReservationStatus : Type 0 where
  reserved released : ReservationStatus
  committed : String → ReservationStatus

pub record ReservationState : Type 0 where
  pub reservation : TokenReservation
  pub status : ReservationStatus

pub record ActiveToken : Type 0 where
  pub token : String
  pub expires_at : ℕ
  pub consumed : Bool
  pub reservation : Option ReservationState

-- `objects` is how many reservations were made, so that a new one is another object.
pub record QrSession : Type 0 where
  pub active : Option ActiveToken
  pub objects : ℕ

pub data ReserveResult : Type 0 where
  token_reserved : TokenReservation → ReserveResult
  token_committed : String → ReserveResult
  token_expired token_consumed token_unknown : ReserveResult

abbrev pub new : QrSession
new = record { active = none; objects = 0 }

-- The random token is given.
unfoldable pub issue_token : String → ℕ → ℕ → QrSession → QrSession
issue_token token now ttl_ms s = record s {
  active =
      some
        (record { token = token; expires_at = now + ttl_ms; consumed = false; reservation = none });
}

unfoldable pub clear : QrSession → QrSession
clear s = record s { active = none }

module _ (now : ℕ) (owner_id request_id : String) where
  -- A reservation that is new, in the place of the one that was released, if any.
  abbrev pub reserve_new : ActiveToken → QrSession → QrSession × ReserveResult
  reserve_new a s =
      let r : TokenReservation = record {
        object = s.objects;
        token = a.token;
        owner_id = owner_id;
        request_id = request_id;
      } in
      (
        record {
          active =
              some
                (record a { reservation = some (record { reservation = r; status = reserved }) });
          objects = s.objects + 1;
        },
        token_reserved r,
      )

  abbrev pub unless_over :
      ActiveToken → QrSession → QrSession × ReserveResult → QrSession × ReserveResult
  unless_over a s otherwise =
      if ltb a.expires_at now
      then (s, token_expired)
      else if a.consumed
      then (s, token_consumed)
      else otherwise

  abbrev pub reserve_own :
      ActiveToken → TokenReservation → ReservationStatus → QrSession → QrSession × ReserveResult
  reserve_own a r (committed completion) s = (s, token_committed completion)
  reserve_own a r reserved s = unless_over a s (s, token_reserved r)
  reserve_own a r released s = unless_over a s (reserve_new a s)

  abbrev pub reserve_state :
      ActiveToken → Option ReservationState → QrSession → QrSession × ReserveResult
  reserve_state a none s = unless_over a s (reserve_new a s)
  reserve_state a (some existing) s =
      if not (existing.reservation.owner_id == owner_id)
        || not (existing.reservation.request_id == request_id)
      then (s, token_consumed)
      else reserve_own a existing.reservation existing.status s

  abbrev pub reserve_active : Option ActiveToken → String → QrSession → QrSession × ReserveResult
  reserve_active none token s = (s, token_unknown)
  reserve_active (some a) token s =
      if a.token == token then reserve_state a a.reservation s else (s, token_unknown)

  unfoldable pub reserve_token : String → QrSession → QrSession × ReserveResult
  reserve_token token s = reserve_active s.active token s

abbrev pub is_reserved : ReservationStatus → Bool
is_reserved reserved = true
is_reserved _ = false

-- The reservation is the current one, and reserved.
abbrev pub holds : TokenReservation → ReservationState → Bool
holds r state = state.reservation.object == r.object && is_reserved state.status

abbrev pub in_time : ℕ → TokenReservation → ActiveToken → Bool
in_time now r a = a.token == r.token && not (ltb a.expires_at now)

abbrev pub set_status : ActiveToken → ReservationState → ReservationStatus → QrSession → QrSession
set_status a state status s = record s {
  active = some (record a { reservation = some (record state { status = status }) });
}

abbrev pub commit_state :
    ℕ
    → TokenReservation
    → String
    → ActiveToken
    → Option ReservationState
    → QrSession
    → QrSession × Bool
commit_state now r completion a none s = (s, false)
commit_state now r completion a (some state) s =
    if holds r state && in_time now r a
    then (set_status a state (committed completion) s, true)
    else (s, false)

abbrev pub commit_active :
    ℕ → TokenReservation → String → Option ActiveToken → QrSession → QrSession × Bool
commit_active now r completion none s = (s, false)
commit_active now r completion (some a) s = commit_state now r completion a a.reservation s

unfoldable pub commit_token : ℕ → TokenReservation → String → QrSession → QrSession × Bool
commit_token now r completion s = commit_active now r completion s.active s

abbrev pub release_state :
    TokenReservation → ActiveToken → Option ReservationState → QrSession → QrSession × Bool
release_state r a none s = (s, false)
release_state r a (some state) s =
    if holds r state then (set_status a state released s, true) else (s, false)

abbrev pub release_active : TokenReservation → Option ActiveToken → QrSession → QrSession × Bool
release_active r none s = (s, false)
release_active r (some a) s = release_state r a a.reservation s

unfoldable pub release_token : TokenReservation → QrSession → QrSession × Bool
release_token r s = release_active r s.active s

abbrev pub current_state : ℕ → TokenReservation → ActiveToken → Option ReservationState → Bool
current_state now r a none = false
current_state now r a (some state) = holds r state && in_time now r a

unfoldable pub is_reservation_current : ℕ → TokenReservation → QrSession → Bool
is_reservation_current now r s = elim (s.active) [
  | none ↦ false
  | some a ↦ current_state now r a a.reservation
]

pub data ConsumeResult : Type 0 where
  consume_ok consume_expired consume_consumed consume_unknown : ConsumeResult

abbrev pub consume_active : ℕ → String → Option ActiveToken → QrSession → QrSession × ConsumeResult
consume_active now token none s = (s, consume_unknown)
consume_active now token (some a) s =
    if not (a.token == token)
    then (s, consume_unknown)
    else if a.consumed || is_some a.reservation
    then (s, consume_consumed)
    else if ltb a.expires_at now
    then (s, consume_expired)
    else (record s { active = some (record a { consumed = true }) }, consume_ok)

unfoldable pub consume_token : ℕ → String → QrSession → QrSession × ConsumeResult
consume_token now token s = consume_active now token s.active s
