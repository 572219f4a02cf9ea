-- ===== src/AgentTimeline/Distinct.antt =====
-- runtime.ts: no event is published twice.
use mathlib.Core.Path.{subst}
use mathlib.Core.List.{append-nil}
use remote_pi.Base.{
  ℕ, String, ◌≡◌, refl, sym, ap, ◌∙◌, inl, inr, Bool, true, false, not, Option, none, some, List,
  [], ◌∷◌, ◌++◌, any, Bool-cases, if◌then◌else◌,
}
use remote_pi.Base.Equality.{◌==◌, string_eq, nat_eq, option_eq}
use remote_pi.Base.Distinct.{DistinctBy, DistinctBy-append}
use remote_pi.AgentTimeline.Types.{
  MessageRole, user, assistant, tool_result, MessageRecord, Correlation, Marker, SessionEntry,
  Session, TimelineEvent, PendingMessage, Platform,
}
use remote_pi.AgentTimeline.Events.{or_else, unknown_correlation, to_system_event}
use remote_pi.AgentTimeline.Runtime.{
  Runtime, new, Effect, on_published, attach, reset_session, on_agent_start, on_agent_end,
  set_pending, correlation_for, start_marked, on_message_start, find_pending, end_found,
  on_message_end, publish, publish_found, ended_event, publish_ended, publish_session_entry,
}

-- The calls of the agent, in any order. `ended` is the callback of `setImmediate`.
pub data Call : Type 0 where
  agent_start agent_end : Call
  session_reset : Session → Call
  message_start : Session → Option Correlation → String → String → Option MessageRecord → Call
  message_end : Session → Option MessageRecord → Call
  ended : Session → PendingMessage → Call
  session_entry : Session → SessionEntry → Call

unfoldable pub run_call : Platform → Call → Runtime → Runtime × List Effect
run_call platform agent_start r = (on_agent_start r, [])
run_call platform agent_end r = (on_agent_end r, [])
run_call platform (session_reset session) r = (reset_session session r, [])
run_call platform (message_start session current group_id event_id m) r =
    on_message_start platform session current group_id event_id m r
run_call platform (message_end session m) r = ((on_message_end platform session m r).0, [])
run_call platform (ended session p) r = publish_ended platform session p r
run_call platform (session_entry session entry) r = publish_session_entry platform session entry r

-- The session of the call is another than the runtime's, so that `attach` resets the runtime.
abbrev pub attaches : Session → Runtime → Bool
attaches session r = not (r.session == some session.object)

abbrev pub resets : Call → Runtime → Bool
resets (session_reset session) r = true
resets (message_start session _ _ _ _) r = attaches session r
resets (message_end session _) r = attaches session r
resets (session_entry session _) r = attaches session r
resets _ r = false

-- The events that effects give to the listener, `onPublished`.
abbrev pub heard_in : List Effect → List TimelineEvent
heard_in [] = []
heard_in (on_published e c ∷ effects) = e ∷ heard_in effects
heard_in (_ ∷ effects) = heard_in effects

-- The runtime, and the events that its listener has heard since the last reset.
pub record Observed : Type 0 where
  pub runtime : Runtime
  pub heard : List TimelineEvent

abbrev pub silent : Observed
silent = record { runtime = new; heard = [] }

unfoldable pub observe : Platform → Call → Observed → Observed
observe platform c o =
    let (r, effects) = run_call platform c o.runtime in
    record { runtime = r; heard = (if resets c o.runtime then [] else o.heard) ++ heard_in effects }

unfoldable pub run_calls : Platform → List Call → Observed → Observed
run_calls platform [] o = o
run_calls platform (c ∷ calls) o = run_calls platform calls (observe platform c o)

-- The listener heard what is published, each event id once.
abbrev pub IsDistinct : Observed → Type 0
IsDistinct o =
    (o.heard ≡ o.runtime.published) × DistinctBy (λ (e : TimelineEvent). e.event_id) o.heard

abbrev IsDistinctList : List TimelineEvent → Type 0
IsDistinctList events = DistinctBy (λ (e : TimelineEvent). e.event_id) events

-- From a runtime, a result publishes just what the listener hears.
abbrev Tells : List TimelineEvent → Runtime × List Effect → Type 0
Tells before result =
    (result.0.published ≡ before ++ heard_in result.1) × IsDistinctList result.0.published

attach-published :
    (session : Session) (r : Runtime)
    → (attach session r).published ≡ (if attaches session r then [] else r.published)
unfolding attach reset_session
attach-published session r = elim (Bool-cases (r.session == some session.object)) [
  | inl same ↦ rw same refl
  | inr other ↦ rw other refl
]

kept-IsDistinctList :
    (forgets : Bool) (events : List TimelineEvent)
    → IsDistinctList events
    → IsDistinctList (if forgets then [] else events)
kept-IsDistinctList true events h = tt
kept-IsDistinctList false events h = h

-- A call that publishes nothing.
quiet-Tells :
    (before : List TimelineEvent) (result : Runtime × List Effect)
    → IsDistinctList before
    → result.0.published ≡ before
    → heard_in result.1 ≡ []
    → Tells before result
quiet-Tells before result distinct same silent = (
  same ∙ (sym (append-nil before) ∙ ap (λ l. before ++ l) (sym silent)),
  subst IsDistinctList (sym same) distinct,
)

set_pending-published :
    (r : Runtime) (role : MessageRole) (pendings : List PendingMessage)
    → (set_pending r role pendings).published ≡ r.published
set_pending-published r user pendings = refl
set_pending-published r assistant pendings = refl
set_pending-published r tool_result pendings = refl

publish-Tells :
    (e : TimelineEvent) (c : Correlation) (r : Runtime)
    → IsDistinctList r.published
    → Tells r.published (publish e c r)
unfolding publish
publish-Tells e c r h =
    elim (Bool-cases
      (any (λ (existing : TimelineEvent). existing.event_id == e.event_id) r.published)) [
        | inl known ↦ rw known (sym (append-nil r.published), h)
        | inr fresh ↦
            rw fresh
              (refl, DistinctBy-append (λ (e : TimelineEvent). e.event_id) r.published e fresh h)
      ]

module _ (platform : Platform) where
  publish_found-Tells :
      (o : Option TimelineEvent) (c : Correlation) (r : Runtime)
      → IsDistinctList r.published
      → Tells r.published (publish_found platform o c r)
  publish_found-Tells none c r h = (sym (append-nil r.published), h)
  publish_found-Tells (some e) c r h = publish-Tells e c r h

  end_found-published :
      (o : Option PendingMessage) (object : ℕ) (r : Runtime)
      → (end_found platform o object r).0.published ≡ r.published
  end_found-published none object r = refl
  end_found-published (some p) object r = set_pending-published _ p.role _

  start_marked-quiet :
      (m : MessageRecord) (c : Correlation) (group_id event_id : String) (r : Runtime)
      (o : Option Marker)
      → let result = start_marked platform m c group_id event_id r o in
        (result.0.published ≡ r.published) × (heard_in result.1 ≡ [])
  start_marked-quiet m c group_id event_id r none = (refl, refl)
  start_marked-quiet m c group_id event_id r (some marker) =
      (set_pending-published _ m.role _, refl)

  started-published :
      (active : Bool) (r : Runtime)
      → (if active then r else on_agent_start r).published ≡ r.published
  unfolding on_agent_start
  started-published true r = refl
  started-published false r = refl

  run_call-Tells :
      (c : Call) (r : Runtime)
      → IsDistinctList r.published
      → Tells (if resets c r then [] else r.published) (run_call platform c r)
  unfolding run_call on_agent_start on_agent_end reset_session on_message_start on_message_end
      publish_ended publish_session_entry
  run_call-Tells agent_start r h = quiet-Tells r.published (on_agent_start r, []) h refl refl
  run_call-Tells agent_end r h = quiet-Tells r.published (on_agent_end r, []) h refl refl
  run_call-Tells (session_reset session) r h = (refl, tt)
  run_call-Tells (message_start session current group_id event_id none) r h =
      quiet-Tells _ (run_call platform (message_start session current group_id event_id none) r)
        (kept-IsDistinctList (attaches session r) r.published h) (attach-published session r) refl
  run_call-Tells (message_start session current group_id event_id (some m)) r h =
      let attached = attach session r in
      let started = if attached.active then attached else on_agent_start attached in
      let quiet =
        start_marked-quiet m (correlation_for started current m)
          (or_else started.active_group_id group_id) event_id _ _ in
      quiet-Tells _ (run_call platform (message_start session current group_id event_id (some m)) r)
        (kept-IsDistinctList (attaches session r) r.published h)
        (quiet.0 ∙ (started-published attached.active attached ∙ attach-published session r))
        quiet.1
  run_call-Tells (message_end session none) r h =
      quiet-Tells _ (run_call platform (message_end session none) r)
        (kept-IsDistinctList (attaches session r) r.published h) (attach-published session r) refl
  run_call-Tells (message_end session (some m)) r h =
      quiet-Tells _ (run_call platform (message_end session (some m)) r)
        (kept-IsDistinctList (attaches session r) r.published h)
        (end_found-published (find_pending platform (attach session r) m) m.object
            (attach session r)
          ∙ attach-published session r)
        refl
  run_call-Tells (ended session p) r h =
      publish_found-Tells (ended_event platform session p) p.correlation r h
  run_call-Tells (session_entry session entry) r h =
      subst (λ before. Tells before (publish_session_entry platform session entry r))
        (attach-published session r)
        (publish_found-Tells (to_system_event platform session entry) unknown_correlation
          (attach session r)
          (subst IsDistinctList (sym (attach-published session r))
            (kept-IsDistinctList (attaches session r) r.published h)))

  observe-IsDistinct : (c : Call) (o : Observed) → IsDistinct o → IsDistinct (observe platform c o)
  unfolding observe
  observe-IsDistinct c o h =
      let told = run_call-Tells c o.runtime (subst IsDistinctList h.0 h.1) in
      let heard =
        ap
          (λ l.
            (if resets c o.runtime then [] else l) ++ heard_in (run_call platform c o.runtime).1)
          h.0 in
      let whole = heard ∙ sym told.0 in (whole, subst IsDistinctList (sym whole) told.1)

  run_calls-IsDistinct' :
      (calls : List Call) (o : Observed) → IsDistinct o → IsDistinct (run_calls platform calls o)
  unfolding run_calls
  run_calls-IsDistinct' [] o h = h
  run_calls-IsDistinct' (c ∷ calls) o h =
      run_calls-IsDistinct' calls (observe platform c o) (observe-IsDistinct c o h)

  -- Whatever calls the agent makes from the start on, in whatever order, with whatever branches the
  -- callbacks find: the events that the listener has been given since the last reset are those
  -- published, in their order, and have different ids.
  pub run_calls-IsDistinct : (calls : List Call) → IsDistinct (run_calls platform calls silent)
  run_calls-IsDistinct calls = run_calls-IsDistinct' calls silent (refl, tt)
