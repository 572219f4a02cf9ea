-- ===== src/Tests/PairingTests.antt =====
-- Concrete runs of the pairing token's theorem.
use remote_pi.Base.{ℕ, ◌≤◌, String, ◌≡◌, refl, List, [], ◌∷◌, arith}
use remote_pi.Base.Equality.{string_eq}
use remote_pi.Pairing.{
  TokenReservation, QrSession, token_consumed, new, issue_token, reserve_token, commit_token,
  release_token, consume_token,
}
use remote_pi.Pairing.Bound.{
  Call, reserve, commit, release, consume, BoundActive, run_call, run_calls,
}
use remote_pi.Pairing.Owned.{run_calls-IsOwned}

abbrev issued : QrSession
issued = issue_token "t" 0 60000 new

abbrev reserved_once : QrSession
reserved_once = (reserve_token 1 "alice" "r1" "t" issued).0

abbrev reservation : ℕ → TokenReservation
reservation n = record { object = n; token = "t"; owner_id = "alice"; request_id = "r1" }

-- A release, another owner's attempt, the retry of the first, and two commits.
abbrev calls : List Call
calls =
    release (reservation 0)
    ∷ reserve 2 "bob" "r2" "t"
    ∷ consume 2 "t"
    ∷ reserve 3 "alice" "r1" "t"
    ∷ commit 4 (reservation 0) "stale"
    ∷ commit 4 (reservation 1) "done"
    ∷ commit 5 (reservation 1) "again"
    ∷ []

one_commit : (run_calls calls reserved_once).1 ≡ 1
unfolding run_calls issue_token reserve_token run_call commit_token release_token consume_token
one_commit = refl

is_bound : BoundActive "t" "alice" "r1" reserved_once.active
unfolding issue_token reserve_token
is_bound = (refl, (refl, refl))

abbrev alice : String
alice = "alice"

abbrev bob : String
bob = "bob"

abbrev first_request : String
first_request = "r1"

abbrev second_request : String
second_request = "r2"

bob_is_not_alice : ¬ ((bob ≡ alice) × (second_request ≡ first_request))
bob_is_not_alice h = absurd (ground (arith, (string_eq.same_iff bob alice).1 h.0))

run_calls-IsOwned_example :
    BoundActive "t" "alice" "r1" (run_calls calls reserved_once).0.active
    × ((reserve_token 6 "bob" "r2" "t" (run_calls calls reserved_once).0
          ≡ ((run_calls calls reserved_once).0, token_consumed))
        × ((run_calls calls reserved_once).1 ≤ 1))
run_calls-IsOwned_example =
    run_calls-IsOwned "t" "alice" "r1" reserved_once is_bound calls 6 "bob" "r2" bob_is_not_alice
