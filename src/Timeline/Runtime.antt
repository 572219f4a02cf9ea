-- ===== src/Timeline/Runtime.antt =====
-- timeline-runtime.ts: user messages that are reconciled, and the commit of events.
use remote_pi.Base.{
  String, Bool, true, false, not, ◌&&◌, ◌||◌, Option, none, some, List, [], ◌∷◌, ◌++◌, map, filter,
  any, is_some, if◌then◌else◌,
}
use remote_pi.Base.Equality.{◌==◌, string_eq}
use remote_pi.Base.JsMap
use remote_pi.Base.JsMap.{JsMap, values}
use remote_pi.Display.Types.{TimelinePartial, option_eq, is_tool}
use remote_pi.Timeline.Types.{
  TimelineScope, EventKind, user, assistant, provider_error, tool, other_kind, TimelineEvent,
  TimelinePending, Observed, FrameScope, Runtime, Decoders,
}
use remote_pi.Timeline.Pending.{is_matching_scope}

-- A user event with this message id.
abbrev pub is_formal : String → TimelineEvent → Bool
is_formal message_id event = elim event.kind [ user m ↦ m == message_id | _ ↦ false ]

abbrev pub has_message : String → TimelinePending → Bool
has_message message_id p = elim p.message_id [ none ↦ false | some m ↦ m == message_id ]

observe : Option TimelineScope → String → String → List Observed → List Observed
observe none client_request_id message_id queue = queue
observe (some scope) client_request_id message_id queue =
    queue
    ++ record {
      channel_id = scope.channel_id;
      history_generation = scope.history_generation;
      client_request_id = client_request_id;
      message_id = message_id;
    }
      ∷ []

-- The loop of `reconcileUserMessage` over the matches.
unfoldable pub settle_all : String → List String → Runtime → Runtime
unfolding observe
settle_all message_id [] s = s
settle_all message_id (id ∷ ids) s = settle_all message_id ids (record s {
  pending = JsMap.delete s.pending id;
  unknown = filter (λ p. not (p.client_request_id == id)) s.unknown;
  observed_queue = observe s.scope id message_id s.observed_queue;
})

unfoldable pub matching_ids : String → Runtime → List String
matching_ids message_id s =
    map (λ e. e.0) (filter (λ e. has_message message_id e.1) s.pending)
    ++ map (λ p. p.client_request_id) (filter (has_message message_id) s.unknown)

unfoldable pub reconcile_user_message : String → Runtime → Runtime
reconcile_user_message message_id s =
    if any (is_formal message_id) (values s.events)
    then settle_all message_id (matching_ids message_id s) s
    else s

-- The partials that a formal event replaces.
abbrev pub is_replaced : Option String → Bool → TimelinePartial → Bool
is_replaced group_id by_tool p =
    option_eq p.group_id group_id && (if by_tool then is_tool p.kind else not (is_tool p.kind))

unfoldable pub drop_partials : Option String → Bool → Runtime → Runtime
drop_partials group_id by_tool s = record s {
  partials = filter (λ e. not (is_replaced group_id by_tool e.1.partial)) s.partials;
}

unfoldable pub after_commit : TimelineEvent → Runtime → EventKind → Runtime
unfolding drop_partials
after_commit event s (user message_id) = reconcile_user_message message_id s
after_commit event s assistant = drop_partials event.group_id false s
after_commit event s provider_error = drop_partials event.group_id false s
after_commit event s tool = drop_partials event.group_id true s
after_commit event s other_kind = s

-- `previous && JSON.stringify(previous) !== JSON.stringify(event)`
abbrev pub conflicts : Option TimelineEvent → TimelineEvent → Bool
conflicts none event = false
conflicts (some previous) event = not (previous.json == event.json)

unfoldable pub commit_parsed : TimelineEvent → Runtime → Runtime
unfolding after_commit
commit_parsed event s =
    if conflicts (JsMap.get s.events event.event_id) event
    then s
    else after_commit event (record s { events = JsMap.set s.events event.event_id event })
        event.kind

abbrev pub scope_of : TimelineEvent → FrameScope
scope_of e = record { session_id = e.session_id; history_generation = e.history_generation }

abbrev pub or_no_scope : Option TimelineScope → FrameScope → Bool
or_no_scope scope frame = not (is_some scope) || is_matching_scope scope frame

module _ (decoders : Decoders) where
  unfoldable pub commit_found : Runtime → Option TimelineEvent → Runtime
  commit_found s none = s
  commit_found s (some parsed) =
      if is_matching_scope s.scope (scope_of parsed) then commit_parsed parsed s else s

  unfoldable pub commit : TimelineEvent → Runtime → Runtime
  unfolding commit_found
  commit event s = commit_found s (decoders.parse_event event)

  -- The events of a history window that are of the scope.
  unfoldable pub parse_history : Option TimelineScope → List TimelineEvent → List TimelineEvent
  parse_history scope [] = []
  parse_history scope (event ∷ events) =
      let rest = parse_history scope events in
      elim (decoders.parse_event event) [
        | none ↦ rest
        | some parsed ↦ if or_no_scope scope (scope_of parsed) then parsed ∷ rest else rest
      ]

  unfoldable pub commit_all : List TimelineEvent → Runtime → Runtime
  commit_all [] s = s
  commit_all (event ∷ events) s = commit_all events (commit_parsed event s)

  unfoldable pub replace_history : List TimelineEvent → Runtime → Runtime
  replace_history events s =
      let parsed = parse_history s.scope events in
      commit_all parsed (record s { history_events = parsed; events = [] })

  unfoldable pub prepend_history : List TimelineEvent → Runtime → Runtime
  prepend_history events s = commit_all (parse_history s.scope events) s
