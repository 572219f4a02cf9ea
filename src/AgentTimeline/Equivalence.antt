-- ===== src/AgentTimeline/Equivalence.antt =====
-- runtime.ts: what is published live and what is recovered from the session.
use mathlib.Core.Path.{subst}
use mathlib.Core.Option.{some-injective}
use remote_pi.Base.Membership.{In, In-left}
use remote_pi.Base.{
  ℕ, All, ◌⊎◌, ◌≡◌, refl, sym, ap, ◌∙◌, true, false, ◌||◌, Option, none, some, List, [], ◌∷◌, ◌++◌,
  arith,
}
use remote_pi.Base.Equality.{◌==◌, ==_self, string_eq, option_eq}
use remote_pi.AgentTimeline.Types.{
  MessageRole, user, assistant, tool_result, Correlation, Marker, marker_data, custom_entry,
  SessionEntry, Session, TimelineEvent, PendingMessage, Platform, timeline_marker,
}
use remote_pi.AgentTimeline.Events.{
  role_for_marker, correlation_from_kind, correlation_from_marker, to_timeline_event,
}
use remote_pi.AgentTimeline.Runtime.{
  marker_kind, marks, entries_after, Target, scan_target, event_of, target_after, ended_event,
}
use remote_pi.AgentTimeline.Recovery.{Marked, marked, events_of, append_systems, recover}
use remote_pi.AgentTimeline.Clock.{HasTime, event_of-later}
use remote_pi.AgentTimeline.Targets.{
  HasRole, scan_target-HasRole, IsStarted, event_of-marker, entries_after-found, marked-In,
  cons_event-inverse,
}

events_of-In :
    (platform : Platform) (session : Session) (before : List Marked) (m : Marked)
    (after : List Marked) (e : TimelineEvent) (events : List TimelineEvent)
    → events_of platform session (before ++ m ∷ after) ≡ some events
    → to_timeline_event platform session m.target.entry_ms m.target.message m.marker
        (correlation_from_marker m.marker)
      ≡ some e
    → In e events
unfolding events_of
events_of-In platform session [] m after e events all own =
    let (x, xs, first, rest, whole) = cons_event-inverse platform _ _ events all in
    let same = some-injective e x (sym own ∙ first) in ([], xs, rw same whole)
events_of-In platform session (b ∷ before) m after e events all own =
    let (x, xs, first, rest, whole) = cons_event-inverse platform _ _ events all in
    let (earlier, later, inside) = events_of-In platform session before m after e xs rest own in
    (x ∷ earlier, later, ap (λ l. x ∷ l) inside ∙ whole)

append_systems-inverse :
    (platform : Platform) (o : Option (List TimelineEvent)) (systems events : List TimelineEvent)
    → append_systems platform o systems ≡ some events
    → (xs : List TimelineEvent) × (o ≡ some xs) × (xs ++ systems ≡ events)
append_systems-inverse platform none systems events h = absurd (ground (arith, h))
append_systems-inverse platform (some xs) systems events h =
    (xs, refl, some-injective (xs ++ systems) events h)

role_for_marker-started :
    (m : Marker) (role : MessageRole) (c : Correlation)
    → m.kind ≡ marker_kind role c
    → role_for_marker m ≡ role
role_for_marker-started m user c kind = rw kind refl
role_for_marker-started m assistant c kind = rw kind refl
role_for_marker-started m tool_result c kind = rw kind refl

-- The events that `recover` reads have that of each marked target.
recover-In :
    (platform : Platform) (session : Session) (m : Marked) (e : TimelineEvent)
    (events : List TimelineEvent)
    → In m (marked platform session.branch)
    → to_timeline_event platform session m.target.entry_ms m.target.message m.marker
        (correlation_from_marker m.marker)
      ≡ some e
    → recover platform session ≡ some events
    → In e events
unfolding recover
recover-In platform session m e events inside own all =
    let found = marked platform session.branch in
    let (xs, read, whole) = append_systems-inverse platform _ _ events all in
    let (before, after, split) = In-left m found _ inside in
    let (earlier, later, there) =
      events_of-In platform session before m after e xs
        (ap (events_of platform session) split ∙ read) own in
    let (earlier', later', last) = In-left e xs _ (earlier, later, there) in
    (earlier', later', last ∙ whole)

-- The target of a marker, found or not, in the first place where the marker stands.
target_recovered :
    (platform : Platform) (session : Session) (p : PendingMessage)
    (before after : List SessionEntry) (entry : SessionEntry) (e : TimelineEvent)
    (events : List TimelineEvent) (o : Option Target)
    → IsStarted p
    → before ++ entry ∷ after ≡ session.branch
    → entry.kind ≡ custom_entry timeline_marker (marker_data p.marker)
    → platform.parse_marker (marker_data p.marker) ≡ some p.marker
    → scan_target after p.role ≡ o
    → event_of platform session o p.marker p.correlation ≡ some e
    → recover platform session ≡ some events
    → In e events
target_recovered platform session p before after entry e events none started branch kind parsed scan
      live all =
    absurd (ground (arith, live))
target_recovered platform session p before after entry e events (some t) started branch kind parsed
      scan live all =
    let m : Marked = record { target = t; marker = p.marker } in
    let role = role_for_marker-started p.marker p.role p.correlation started in
    let target = ap (scan_target after) role ∙ scan in
    let (earlier, later, there) =
      marked-In platform before entry after p.marker t kind parsed target in
    let has : HasRole p.role (some t) =
      subst (HasRole p.role) scan (scan_target-HasRole after p.role) in
    let same =
      event_of-marker platform session (some t) p.marker p.correlation p.role has started in
    let corr = ap correlation_from_kind started in
    recover-In platform session m e events (earlier, later, there ∙ ap (marked platform) branch)
      (ap (to_timeline_event platform session t.entry_ms t.message p.marker) corr ∙ sym same ∙ live)
      all

-- What is published live is recovered later. Take a message that was started, whose marker stands in
-- the session's branch and is first there under its event id, and which the schema of markers gives
-- back as it was appended. Let the entries after the marker have times, or the clock read the same
-- both times. If the end of the message makes an event, then that same event, field by field, is among
-- the events that `recover` reads later from the same session, if it reads it without a throw.
pub ended_event-recover :
    (platform : Platform) (session : Session) (later : ℕ) (p : PendingMessage)
    (before after : List SessionEntry) (entry : SessionEntry) (e : TimelineEvent)
    (events : List TimelineEvent)
    → IsStarted p
    → before ++ entry ∷ after ≡ session.branch
    → entry.kind ≡ custom_entry timeline_marker (marker_data p.marker)
    → All
        (λ (e : SessionEntry).
          (e.id == p.marker.event_id || marks p.marker.event_id e.kind) ≡ false)
        before
    → platform.parse_marker (marker_data p.marker) ≡ some p.marker
    → (session.now ≡ later) ⊎ All HasTime after
    → ended_event platform session p ≡ some e
    → recover platform (record session { now = later }) ≡ some events
    → In e events
unfolding ended_event
ended_event-recover platform session later p before after entry e events started branch kind first
      parsed timed live all =
    let id = p.marker.event_id in
    let marked_entry : marks id entry.kind ≡ true = rw (kind, ==_self id) refl in
    let found : entries_after id session.branch ≡ some after =
      ap (entries_after id) (sym branch)
      ∙ entries_after-found id before entry after first marked_entry in
    let target : target_after platform (entries_after id session.branch) p.role
        ≡ scan_target after p.role =
      ap (λ o. target_after platform o p.role) found in
    let from_target : event_of platform session (scan_target after p.role) p.marker p.correlation
        ≡ some e =
      ap (λ o. event_of platform session o p.marker p.correlation) (sym target) ∙ live in
    let from_later =
      sym (event_of-later platform session later after p.role p.marker p.correlation timed)
      ∙ from_target in
    target_recovered platform (record session { now = later }) p before after entry e events
      (scan_target after p.role) started branch kind parsed refl from_later all
