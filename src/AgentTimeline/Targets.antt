-- ===== src/AgentTimeline/Targets.antt =====
-- runtime.ts: the target of a marker, and the event that is made of it.
use mathlib.Core.Option.{some-injective}
use remote_pi.Base.Membership.{In, In-left, In-right}
use remote_pi.Base.{
  String, All, ◌≡◌, refl, ap, inl, inr, true, false, ◌||◌, Option, none, some, List, [], ◌∷◌, ◌++◌,
  arith, Bool-cases,
}
use remote_pi.Base.Equality.{◌==◌, string_eq, option_eq}
use remote_pi.AgentTimeline.Types.{
  MessageRole, user, assistant, tool_result, MessageRecord, Correlation, Marker, marker_data,
  EntryKind, message_entry, custom_entry, compaction_entry, branch_summary_entry, other_entry,
  SessionEntry, Session, TimelineEvent, PendingMessage, Platform, timeline_marker,
}
use remote_pi.AgentTimeline.Events.{
  role_for_marker, correlation_from_kind, body_of, parse_body, to_timeline_event,
}
use remote_pi.AgentTimeline.Runtime.{
  same_role, marker_kind, marks, entries_after, Target, of_role, scan_kind, scan_target, event_of,
}
use remote_pi.AgentTimeline.Recovery.{marked_at, marked, cons_event}

pub same_role-eq : (a b : MessageRole) → same_role a b ≡ true → a ≡ b
same_role-eq user user h = refl
same_role-eq assistant assistant h = refl
same_role-eq tool_result tool_result h = refl
same_role-eq user assistant h = absurd (ground (arith, h))
same_role-eq user tool_result h = absurd (ground (arith, h))
same_role-eq assistant user h = absurd (ground (arith, h))
same_role-eq assistant tool_result h = absurd (ground (arith, h))
same_role-eq tool_result user h = absurd (ground (arith, h))
same_role-eq tool_result assistant h = absurd (ground (arith, h))

-- The target of a scan has the role that was asked for.
abbrev pub HasRole : MessageRole → Option Target → Type 0
HasRole role none = Unit
HasRole role (some t) = t.message.role ≡ role

pub of_role-HasRole :
    (entry : SessionEntry) (o : Option MessageRecord) (role : MessageRole)
    → HasRole role (of_role entry o role)
of_role-HasRole entry none role = tt
of_role-HasRole entry (some m) role = elim (Bool-cases (same_role m.role role)) [
  | inl same ↦ rw same (same_role-eq m.role role same)
  | inr other ↦ rw other tt
]

pub scan_kind-HasRole :
    (entry : SessionEntry) (kind : EntryKind) (role : MessageRole) (rest : Option Target)
    → HasRole role rest
    → HasRole role (scan_kind entry kind role rest)
scan_kind-HasRole entry (message_entry m) role rest h = of_role-HasRole entry m role
scan_kind-HasRole entry (custom_entry custom_type d) role rest h =
    elim (Bool-cases (custom_type == timeline_marker)) [
      | inl marker ↦ rw marker tt
      | inr other ↦ rw other h
    ]
scan_kind-HasRole entry (compaction_entry payload) role rest h = tt
scan_kind-HasRole entry (branch_summary_entry payload) role rest h = tt
scan_kind-HasRole entry other_entry role rest h = tt

pub scan_target-HasRole :
    (branch : List SessionEntry) (role : MessageRole) → HasRole role (scan_target branch role)
unfolding scan_target
scan_target-HasRole [] role = tt
scan_target-HasRole (entry ∷ branch) role =
    scan_kind-HasRole entry entry.kind role (scan_target branch role)
      (scan_target-HasRole branch role)

-- A pending message that `onMessageStart` made.
abbrev pub IsStarted : PendingMessage → Type 0
IsStarted p = p.marker.kind ≡ marker_kind p.role p.correlation

module _ (platform : Platform) where
  -- The body of an event takes of a correlation only what its marker says too.
  pub body_of-marker :
      (m : MessageRecord) (marker : Marker) (c : Correlation) (role : MessageRole)
      → marker.kind ≡ marker_kind role c
      → body_of platform m marker c role
        ≡ body_of platform m marker (correlation_from_kind (marker_kind role c)) role
  unfolding correlation_from_kind
  body_of-marker m marker c user kind = refl
  body_of-marker m marker c assistant kind = refl
  body_of-marker m marker c tool_result kind = refl

  pub role_body-marker :
      (m : MessageRecord) (marker : Marker) (c : Correlation) (own role : MessageRole)
      → own ≡ role
      → marker.kind ≡ marker_kind role c
      → body_of platform m marker c own
        ≡ body_of platform m marker (correlation_from_kind (marker_kind role c)) own
  role_body-marker m marker c own role same kind = rw same (body_of-marker m marker c role kind)

  pub event_of-marker :
      (session : Session) (o : Option Target) (marker : Marker) (c : Correlation)
      (role : MessageRole)
      → HasRole role o
      → marker.kind ≡ marker_kind role c
      → event_of platform session o marker c
        ≡ event_of platform session o marker (correlation_from_kind (marker_kind role c))
  unfolding to_timeline_event
  event_of-marker session none marker c role has kind = refl
  event_of-marker session (some t) marker c role has kind =
      ap (parse_body platform session t.entry_ms t.message marker)
        (role_body-marker t.message marker c t.message.role role has kind)

pub entries_after-found :
    (event_id : String) (before : List SessionEntry) (entry : SessionEntry)
    (after : List SessionEntry)
    → All (λ (e : SessionEntry). (e.id == event_id || marks event_id e.kind) ≡ false) before
    → marks event_id entry.kind ≡ true
    → entries_after event_id (before ++ entry ∷ after) ≡ some after
unfolding entries_after
entries_after-found event_id [] entry after others found = ground (arith, found)
entries_after-found event_id (e ∷ before) entry after others found =
    rw (others.0) (entries_after-found event_id before entry after others.1 found)

pub marked-In :
    (platform : Platform) (before : List SessionEntry) (entry : SessionEntry)
    (after : List SessionEntry) (m : Marker) (t : Target)
    → entry.kind ≡ custom_entry timeline_marker (marker_data m)
    → platform.parse_marker (marker_data m) ≡ some m
    → scan_target after (role_for_marker m) ≡ some t
    → In (record { target = t; marker = m }) (marked platform (before ++ entry ∷ after))
unfolding marked
marked-In platform [] entry after m t kind parsed target =
    In-left _ (marked_at platform entry.kind after) (marked platform after)
      (rw (kind, parsed, target) ([], [], refl))
marked-In platform (e ∷ before) entry after m t kind parsed target =
    In-right _ (marked_at platform e.kind (before ++ entry ∷ after))
      (marked platform (before ++ entry ∷ after))
      (marked-In platform before entry after m t kind parsed target)

pub cons_event-inverse :
    (platform : Platform) (o : Option TimelineEvent) (rest : Option (List TimelineEvent))
    (events : List TimelineEvent)
    → cons_event platform o rest ≡ some events
    → (x : TimelineEvent) × (xs : List TimelineEvent) × (o ≡ some x)
      × (rest ≡ some xs)
      × (x ∷ xs ≡ events)
cons_event-inverse platform (some x) (some xs) events h =
    (x, xs, refl, refl, some-injective (x ∷ xs) events h)
cons_event-inverse platform none rest events h = absurd (ground (arith, h))
cons_event-inverse platform (some x) none events h = absurd (ground (arith, h))
