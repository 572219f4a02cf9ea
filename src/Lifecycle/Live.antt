-- ===== src/Lifecycle/Live.antt =====
-- relay_lifecycle.ts: what a started lifecycle relies on to go on, and how scheduling keeps it.
use remote_pi.Base.{
  ℕ, zero, suc, ◌+◌, String, ◌≡◌, refl, inl, inr, Bool, true, false, not, ◌&&◌, ◌||◌, Option, none,
  some, List, [], ◌∷◌, arith, is_some, leb, Option-cases,
}
use remote_pi.Base.Equality.{◌==◌, nat_eq, string_eq}
use remote_pi.Lifecycle.Types.{
  Task, loading_identity, building_initial_options, connecting_initial, building_reconnect_options,
  connecting_reconnect, clearing_initial_attempt, Lifecycle, is_started, holds,
}
use remote_pi.Lifecycle.Kept.{}
use remote_pi.Lifecycle.Operations.{}
use remote_pi.Lifecycle.Tasks.{take_at}
use remote_pi.Lifecycle.Candidates.{}
use remote_pi.Lifecycle.SingleFlight.{task_flights, flights}

-- What a task of the generation `g` relies on: the candidate that it connects is the pending one,
-- the identity is the one that it was given, and an identity is loaded in the idle state alone.
abbrev pub fits : ℕ → Option ℕ → Option ℕ → Bool → Task → Bool
fits g pending identity is_on (loading_identity e) = not (e == g) || not is_on
fits g pending identity is_on (building_initial_options e _ i) = true
fits g pending identity is_on (connecting_initial e _ c) = not (e == g) || holds pending c
fits g pending identity is_on (building_reconnect_options e _ i) = not (e == g) || holds identity i
fits g pending identity is_on (connecting_reconnect e _ c) = not (e == g) || holds pending c
fits g pending identity is_on (clearing_initial_attempt _) = true

abbrev pub all_fit : ℕ → Option ℕ → Option ℕ → Bool → List Task → Bool
all_fit g pending identity is_on [] = true
all_fit g pending identity is_on (t ∷ ts) =
    fits g pending identity is_on t && all_fit g pending identity is_on ts

-- Tasks of other generations rely on nothing.
pub all_fit_other :
    (g : ℕ) (pending identity : Option ℕ) (is_on : Bool) (ts : List Task)
    → task_flights g ts ≡ 0
    → all_fit g pending identity is_on ts ≡ true
all_fit_other g pending identity is_on [] h = refl
all_fit_other g pending identity is_on (loading_identity e ∷ ts) h =
    ground (arith, all_fit_other g pending identity is_on ts)
all_fit_other g pending identity is_on (t ∷ ts) h =
    ground (arith, all_fit_other g pending identity is_on ts)

pub take_at-fits :
    (g : ℕ) (pending identity : Option ℕ) (is_on : Bool) (n : ℕ) (ts : List Task) (t : Task)
    (rest : List Task)
    → take_at n ts ≡ some (t, rest)
    → all_fit g pending identity is_on ts ≡ true
    → (fits g pending identity is_on t ≡ true) × (all_fit g pending identity is_on rest ≡ true)
unfolding take_at
take_at-fits g pending identity is_on n [] t rest h f = absurd (ground arith)
take_at-fits g pending identity is_on zero (u ∷ ts) t rest h f = ground arith
take_at-fits g pending identity is_on (suc n) (u ∷ ts) t rest h f =
    elim (Option-cases (take_at n ts)) [
      | inl e ↦ cc (rw (e) at h)
      | inr (p, e) ↦ ground (arith, e, take_at-fits g pending identity is_on n ts p.0 p.1)
    ]

abbrev pub has_url : Option String → Bool
has_url none = false
has_url (some url) = not (url == "")

-- `extra` counts a task that has left the list.
pub record Live (extra : ℕ) (s : Lifecycle) : Type 0 where
  pub fitting :
      all_fit s.generation s.pending_candidate s.identity (is_started s.current_state) s.tasks
      ≡ true
  pub identified : is_started s.current_state ≡ true → is_some s.identity ≡ true
  pub addressed : is_started s.current_state ≡ true → has_url s.current_relay_url ≡ true
  pub working :
      is_started s.current_state ≡ true
      → (is_some s.active_relay || leb 1 (extra + flights s.generation s)) ≡ true
  pub undisposed : s.is_disposed ≡ false
