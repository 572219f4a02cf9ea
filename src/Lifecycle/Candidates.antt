-- ===== src/Lifecycle/Candidates.antt =====
-- relay_lifecycle.ts: no two tasks connect the same client.
use remote_pi.Base.{
  ℕ, zero, suc, ◌+◌, ◌≤◌, String, ◌≡◌, inl, inr, some, List, [], ◌∷◌, arith, if◌then◌else◌,
  Option-cases,
}
use remote_pi.Base.Equality.{◌==◌, nat_eq, string_eq}
use remote_pi.Lifecycle.Types.{
  Task, loading_identity, building_initial_options, connecting_initial, building_reconnect_options,
  connecting_reconnect, clearing_initial_attempt, Lifecycle, new, state_change,
}
use remote_pi.Lifecycle.Kept.{
  close_candidate_once-SameFlight, clear_candidate-SameFlight, stop-SameFlight,
}
use remote_pi.Lifecycle.Operations.{
  Outcome, resolved, rejected, start, resume, fire_timer, on_relay_close, set_disposed,
  schedule_reconnect, clear_candidate, adopt, create_client, handle_connection_failure,
}
use remote_pi.Lifecycle.Tasks.{
  Event, start_event, stop_event, timer_event, dispose_event, close_event, resume_event, take_at,
  resume_taken, step,
}

abbrev pub connects : ℕ → Task → ℕ
connects c (connecting_initial _ _ d) = if d == c then 1 else 0
connects c (connecting_reconnect _ _ d) = if d == c then 1 else 0
connects c (loading_identity _) = 0
connects c (building_initial_options _ _ _) = 0
connects c (building_reconnect_options _ _ _) = 0
connects c (clearing_initial_attempt _) = 0

-- How many tasks connect the client `c`.
abbrev pub connecting : ℕ → List Task → ℕ
connecting c [] = 0
connecting c (t ∷ ts) = connects c t + connecting c ts

pub take_at-connecting :
    (c n : ℕ) (ts : List Task) (t : Task) (rest : List Task)
    → take_at n ts ≡ some (t, rest)
    → connecting c ts ≡ connects c t + connecting c rest
unfolding take_at
take_at-connecting c n [] t rest h = absurd (ground arith)
take_at-connecting c zero (u ∷ ts) t rest h = ground arith
take_at-connecting c (suc n) (u ∷ ts) t rest h = elim (Option-cases (take_at n ts)) [
  | inl e ↦ cc (rw (e) at h)
  | inr (p, e) ↦ ground (arith, e, take_at-connecting c n ts p.0 p.1)
]

-- At most one task connects `c`, and none if no such client was made.
abbrev pub Distinct : ℕ → ℕ → Lifecycle → Type 0
Distinct extra c s =
    (extra + connecting c s.tasks ≤ 1) × (s.next_client ≤ c → extra + connecting c s.tasks ≡ 0)

-- Scheduling makes no task and no client.
pub record SameTasks (s t : Lifecycle) : Type 0 where
  pub tasks : t.tasks ≡ s.tasks
  pub next : t.next_client ≡ s.next_client

pub schedule_reconnect-SameTasks :
    (url : String) (s : Lifecycle) → SameTasks s (schedule_reconnect url s)
unfolding schedule_reconnect
schedule_reconnect-SameTasks url s = ground arith

pub handle_connection_failure-SameTasks :
    (e : ℕ) (url : String) (s : Lifecycle) → SameTasks s (handle_connection_failure e url s)
unfolding handle_connection_failure schedule_reconnect
handle_connection_failure-SameTasks e url s = ground arith

on_relay_close-SameTasks : (closed : ℕ) (s : Lifecycle) → SameTasks s (on_relay_close closed s)
unfolding on_relay_close schedule_reconnect
on_relay_close-SameTasks closed s = ground arith

resume-Distinct :
    (t : Task) (o : Outcome) (c : ℕ) (s : Lifecycle)
    → Distinct (connects c t) c s
    → Distinct 0 c (resume t o s)
unfolding resume
resume-Distinct (loading_identity e) (resolved i u) c s h = ground arith
resume-Distinct (loading_identity e) (rejected b) c s h = ground arith
resume-Distinct (building_initial_options e url i) (resolved _ _) c s h =
    unfold create_client in ground arith
resume-Distinct (building_initial_options e url i) (rejected b) c s h =
    ground (arith, handle_connection_failure-SameTasks e url s)
resume-Distinct (connecting_initial e url d) (resolved _ _) c s h =
    unfold adopt in ground (arith, close_candidate_once-SameFlight d s)
resume-Distinct (connecting_initial e url d) (rejected b) c s h = ground (
  arith,
  handle_connection_failure-SameTasks e url (clear_candidate d s),
  clear_candidate-SameFlight d s,
)
resume-Distinct (building_reconnect_options e url i) (resolved _ _) c s h =
    unfold create_client in ground arith
resume-Distinct (building_reconnect_options e url i) (rejected b) c s h =
    ground (arith, schedule_reconnect-SameTasks url (record s { log = state_change ∷ s.log }))
resume-Distinct (connecting_reconnect e url d) (resolved _ _) c s h =
    unfold adopt in ground (arith, close_candidate_once-SameFlight d s)
resume-Distinct (connecting_reconnect e url d) (rejected b) c s h =
    let s' = clear_candidate d s in
    ground (
      arith,
      schedule_reconnect-SameTasks url (record s' { log = state_change ∷ s'.log }),
      clear_candidate-SameFlight d s,
    )
resume-Distinct (clearing_initial_attempt a) o c s h = ground arith

abbrev pub IsDistinct : Lifecycle → Type 0
IsDistinct s = (c : ℕ) → Distinct 0 c s

pub step-IsDistinct : (e : Event) (s : Lifecycle) → IsDistinct s → IsDistinct (step e s)
unfolding step resume_taken start fire_timer set_disposed
step-IsDistinct start_event s h c = ground (arith, h c)
step-IsDistinct stop_event s h c = ground (arith, stop-SameFlight s, h c)
step-IsDistinct timer_event s h c = ground (arith, h c)
step-IsDistinct (dispose_event value) s h c = h c
step-IsDistinct (close_event closed) s h c = ground (arith, on_relay_close-SameTasks closed s, h c)
step-IsDistinct (resume_event place outcome) s h c = elim (Option-cases (take_at place s.tasks)) [
  | inl absent ↦ rw absent (h c)
  | inr ((t, rest), taken) ↦ rw taken (
      resume-Distinct t outcome c (record s { tasks = rest })
        (ground (arith, take_at-connecting c place s.tasks t rest taken, h c)))
]

pub new-IsDistinct : IsDistinct new
unfolding new
new-IsDistinct c = (omega arith, λ later. omega arith)
