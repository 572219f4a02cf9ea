-- ===== src/Timeline/Committed.antt =====
-- timeline-runtime.ts: a committed event does not change.
use remote_pi.Base.{
  ℕ, String, ◌≡◌, refl, sym, ap, ◌∙◌, inl, inr, Bool, true, false, Option, none, some, List, [],
  ◌∷◌, arith, Bool-cases,
}
use remote_pi.Base.Equality.{◌==◌, string_eq}
use remote_pi.Base.JsMap
use remote_pi.Base.JsMap.{JsMap, values, has, get-set}
use remote_pi.Timeline.Types.{
  TimelineEvent, ServerFrame, reset_frame, other_frame, queued_message_state, protocol_error,
  user_message_status, user_message_started, timeline_partial, timeline_event, Runtime, Decoders,
}
use remote_pi.Timeline.Pending.{change, is_matching_scope}
use remote_pi.Timeline.Runtime.{
  commit_parsed, commit, commit_found, commit_all, scope_of, conflicts,
}
use remote_pi.Timeline.Frames.{
  receive_queued, receive_error, receive_status, receive_started, receive_partial, receive,
  receive_all,
}
use remote_pi.Timeline.Untouched.{
  queued_in_scope-events, receive_error-events, receive_started-events, receive_status-events,
  partial_found-events, after_commit-events,
}

abbrev pub json_of : Option TimelineEvent → Option String
json_of none = none
json_of (some e) = some e.json

-- The content of the event with an identifier, if it is committed.
abbrev pub content : String → Runtime → Option String
content id s = json_of (JsMap.get s.events id)

same_content :
    (id json : String) (s s' : Runtime)
    → s'.events ≡ s.events
    → content id s ≡ some json
    → content id s' ≡ some json
same_content id json s s' e known = rw e known

same_json :
    (previous event : TimelineEvent)
    → conflicts (some previous) event ≡ false
    → previous.json ≡ event.json
same_json previous event agree = elim (Bool-cases (previous.json == event.json)) [
  | inl same ↦ (string_eq.same_iff previous.json event.json).0 same
  | inr other ↦ cc (rw other at agree)
]

-- An event that does not conflict leaves the content under its own identifier too.
set_content :
    (id json : String) (event : TimelineEvent) (events : JsMap String TimelineEvent)
    (previous : Option TimelineEvent)
    → JsMap.get events event.event_id ≡ previous
    → conflicts previous event ≡ false
    → json_of (JsMap.get events id) ≡ some json
    → json_of (JsMap.get (JsMap.set events event.event_id event) id) ≡ some json
set_content id json event events none old agree known = elim (Bool-cases (event.event_id == id)) [
  | inl same ↦ cc (old, rw (← (string_eq.same_iff event.event_id id).0 same) at known)
  | inr other ↦ rw (get-set events event.event_id id event, other) known
]
set_content id json event events (some previous) old agree known =
    elim (Bool-cases (event.event_id == id)) [
      | inl same ↦
          rw (get-set events event.event_id id event, same)
            (sym (ap some (same_json previous event agree))
              ∙ (sym (ap json_of old)
                  ∙ rw (← (string_eq.same_iff event.event_id id).0 same) at known))
      | inr other ↦ rw (get-set events event.event_id id event, other) known
    ]

commit_parsed-content :
    (id json : String) (event : TimelineEvent) (s : Runtime)
    → content id s ≡ some json
    → content id (commit_parsed event s) ≡ some json
unfolding commit_parsed
commit_parsed-content id json event s known =
    elim (Bool-cases (conflicts (JsMap.get s.events event.event_id) event)) [
      | inl wrong ↦ rw wrong known
      | inr agree ↦
          rw (agree, after_commit-events event _ event.kind)
            (set_content id json event s.events _ refl agree known)
    ]

commit_all-content :
    (decoders : Decoders) (id json : String) (events : List TimelineEvent) (s : Runtime)
    → content id s ≡ some json
    → content id (commit_all decoders events s) ≡ some json
unfolding commit_all
commit_all-content decoders id json [] s known = known
commit_all-content decoders id json (event ∷ events) s known =
    commit_all-content decoders id json events _ (commit_parsed-content id json event s known)

commit_found-content :
    (decoders : Decoders) (id json : String) (s : Runtime) (parsed : Option TimelineEvent)
    → content id s ≡ some json
    → content id (commit_found decoders s parsed) ≡ some json
unfolding commit_found
commit_found-content decoders id json s none known = known
commit_found-content decoders id json s (some parsed) known =
    elim (Bool-cases (is_matching_scope s.scope (scope_of parsed))) [
      | inl here ↦ rw here (commit_parsed-content id json parsed s known)
      | inr elsewhere ↦ rw elsewhere known
    ]

abbrev is_reset : ServerFrame → Bool
is_reset reset_frame = true
is_reset _ = false

receive-content :
    (decoders : Decoders) (now : ℕ) (id json : String) (frame : ServerFrame) (s : Runtime)
    → is_reset frame ≡ false
    → content id s ≡ some json
    → content id (receive decoders now frame s) ≡ some json
unfolding receive receive_queued receive_partial commit
receive-content decoders now id json reset_frame s no_reset known = cc
receive-content decoders now id json other_frame s no_reset known = known
receive-content decoders now id json (queued_message_state frame) s no_reset known =
    same_content id json s (receive_queued frame s) (queued_in_scope-events frame s s.scope) known
receive-content decoders now id json (protocol_error in_reply_to) s no_reset known =
    same_content id json s (receive_error in_reply_to s) (receive_error-events in_reply_to s) known
receive-content decoders now id json (user_message_status scope i status m) s no_reset known =
    same_content id json s (receive_status scope i status m s)
      (receive_status-events scope i status m s) known
receive-content decoders now id json (user_message_started scope i m) s no_reset known =
    same_content id json s (receive_started scope i m s) (receive_started-events scope i m s) known
receive-content decoders now id json (timeline_partial scope p) s no_reset known =
    same_content id json s (receive_partial decoders now scope p s)
      (ground (arith, partial_found-events now s (decoders.parse_partial p))) known
receive-content decoders now id json (timeline_event scope event) s no_reset known =
    elim (Bool-cases (is_matching_scope s.scope scope)) [
      | inl here ↦
          rw here (commit_found-content decoders id json s (decoders.parse_event event) known)
      | inr elsewhere ↦ rw elsewhere known
    ]

abbrev pub NeverResets : List ServerFrame → Type 0
NeverResets [] = Unit
NeverResets (frame ∷ frames) = (is_reset frame ≡ false) × NeverResets frames

-- Whatever frames follow, in any order and however malformed, as long as none of them is a reset: an
-- event that is committed stays committed, and its content never changes.
pub receive_all-content :
    (decoders : Decoders) (now : ℕ) (id json : String) (frames : List ServerFrame) (s : Runtime)
    → NeverResets frames
    → content id s ≡ some json
    → content id (receive_all decoders now frames s) ≡ some json
unfolding receive_all change
receive_all-content decoders now id json [] s no_resets known = known
receive_all-content decoders now id json (frame ∷ frames) s no_resets known =
    receive_all-content decoders now id json frames _ no_resets.1
      (receive-content decoders now id json frame s no_resets.0 known)
