-- ===== src/AgentTimeline/Clock.antt =====
-- runtime.ts: when the clock's reading is not in an event.
use remote_pi.Base.{
  All, ℕ, ◌≡◌, ◌⊎◌, refl, ap, inl, inr, true, Option, none, some, List, [], ◌∷◌, is_some, arith,
  Bool-cases,
}
use remote_pi.Base.Equality.{◌==◌, string_eq}
use remote_pi.AgentTimeline.Types.{
  MessageRole, MessageRecord, Correlation, Marker, EntryKind, message_entry, custom_entry,
  compaction_entry, branch_summary_entry, other_entry, SessionEntry, Session, TimelineEvent,
  Platform, timeline_marker,
}
use remote_pi.AgentTimeline.Events.{timestamp_of, body_of, to_timeline_event}
use remote_pi.AgentTimeline.Runtime.{same_role, Target, of_role, scan_kind, scan_target, event_of}

-- The entry's time is a date.
abbrev pub HasTime : SessionEntry → Type 0
HasTime entry = is_some entry.timestamp ≡ true

abbrev TargetHasTime : Option Target → Type 0
TargetHasTime none = Unit
TargetHasTime (some t) = is_some t.entry_ms ≡ true

of_role-TargetHasTime :
    (entry : SessionEntry) (m : Option MessageRecord) (role : MessageRole)
    → HasTime entry
    → TargetHasTime (of_role entry m role)
of_role-TargetHasTime entry none role h = tt
of_role-TargetHasTime entry (some m) role h = elim (Bool-cases (same_role m.role role)) [
  | inl same ↦ rw same h
  | inr other ↦ rw other tt
]

scan_kind-TargetHasTime :
    (entry : SessionEntry) (kind : EntryKind) (role : MessageRole) (rest : Option Target)
    → HasTime entry
    → TargetHasTime rest
    → TargetHasTime (scan_kind entry kind role rest)
scan_kind-TargetHasTime entry (message_entry m) role rest h r = of_role-TargetHasTime entry m role h
scan_kind-TargetHasTime entry (custom_entry custom_type d) role rest h r =
    elim (Bool-cases (custom_type == timeline_marker)) [
      | inl marker ↦ rw marker tt
      | inr other ↦ rw other r
    ]
scan_kind-TargetHasTime entry (compaction_entry payload) role rest h r = tt
scan_kind-TargetHasTime entry (branch_summary_entry payload) role rest h r = tt
scan_kind-TargetHasTime entry other_entry role rest h r = tt

scan_target-TargetHasTime :
    (branch : List SessionEntry) (role : MessageRole)
    → All HasTime branch
    → TargetHasTime (scan_target branch role)
unfolding scan_target
scan_target-TargetHasTime [] role h = tt
scan_target-TargetHasTime (entry ∷ branch) role h =
    scan_kind-TargetHasTime entry entry.kind role (scan_target branch role) h.0
      (scan_target-TargetHasTime branch role h.1)

timestamp_of-later :
    (session : Session) (later : ℕ) (entry_ms message_ms : Option ℕ)
    → is_some entry_ms ≡ true
    → timestamp_of session entry_ms message_ms
      ≡ timestamp_of (record session { now = later }) entry_ms message_ms
timestamp_of-later session later (some ms) message_ms h = refl
timestamp_of-later session later none message_ms h = absurd (ground (arith, h))

module _ (platform : Platform) where
  event_of-timed :
      (session : Session) (later : ℕ) (o : Option Target) (marker : Marker) (c : Correlation)
      → TargetHasTime o
      → event_of platform session o marker c
        ≡ event_of platform (record session { now = later }) o marker c
  unfolding to_timeline_event
  event_of-timed session later none marker c h = refl
  event_of-timed session later (some t) marker c h =
      let at : ℕ → Option TimelineEvent = λ n. platform.parse_event (record {
        event_id = marker.event_id;
        session_id = session.session_id;
        history_generation = session.history_generation;
        timestamp = n;
        group_id = marker.group_id;
        body = body_of platform t.message marker c t.message.role;
      }) in
      ap at (timestamp_of-later session later t.entry_ms t.message.timestamp h)

  -- The event of a target is the same at another reading of the clock, if the entries have times.
  pub event_of-later :
      (session : Session) (later : ℕ) (branch : List SessionEntry) (role : MessageRole)
      (marker : Marker) (c : Correlation)
      → (session.now ≡ later) ⊎ All HasTime branch
      → event_of platform session (scan_target branch role) marker c
        ≡ event_of platform (record session { now = later }) (scan_target branch role) marker c
  event_of-later session later branch role marker c (inl same) =
      ap (λ n. event_of platform (record session { now = n }) (scan_target branch role) marker c)
        same
  event_of-later session later branch role marker c (inr timed) =
      event_of-timed session later (scan_target branch role) marker c
        (scan_target-TargetHasTime branch role timed)
