-- ===== src/AgentTimeline/Partials.antt =====
-- runtime.ts: `onMessageUpdate` and `publishPartial`.
use Prim.Native.String.{◌++◌ as ◌⧺◌}
use remote_pi.Base.{ℕ, String, ◌||◌, Option, none, some, List, [], ◌∷◌, map, if◌then◌else◌}
use remote_pi.Base.Equality.{◌==◌, string_eq, nat_eq, option_eq}
use remote_pi.AgentTimeline.Types.{
  MessageRole, user, assistant, tool_result, MessageRecord, Session, PendingMessage, Platform,
}
use remote_pi.AgentTimeline.Events.{or_else}
use remote_pi.AgentTimeline.Deltas.{Units, partial_delta_chunks}
use remote_pi.AgentTimeline.Runtime.{
  Runtime, PartialKind, assistant_partial, thinking_partial, Effect, on_partial, find_pending,
}

-- `assistantMessageEvent`, with its content index.
pub data Update : Type 0 where
  text_start thinking_start : ℕ → Update
  text_delta thinking_delta : ℕ → Units → Update
  other_update : Update

abbrev kind_name : PartialKind → String
kind_name assistant_partial = "assistant"
kind_name thinking_partial = "thinking"

module _ (platform : Platform) (session : Session) where
  abbrev pub partial_of : String → PendingMessage → PartialKind → ℕ → Option Units → Effect
  partial_of group_id p kind content_index delta =
      on_partial
        (record {
          session_id = session.session_id;
          history_generation = session.history_generation;
          group_id = group_id;
          partial_id =
              p.marker.event_id
              ⧺ (":" ⧺ (kind_name kind ⧺ (":" ⧺ platform.number_to_string content_index)));
          kind = kind;
          delta = delta;
        })
        p.correlation

  abbrev partials_of : String → PendingMessage → PartialKind → ℕ → Option Units → List Effect
  partials_of group_id p kind content_index none =
      partial_of group_id p kind content_index none ∷ []
  partials_of group_id p kind content_index (some delta) =
      map (λ chunk. partial_of group_id p kind content_index (some chunk))
        (partial_delta_chunks delta)

  -- `publishPartial`: nothing where an id is empty.
  unfoldable pub publish_partial : PendingMessage → PartialKind → ℕ → Option Units → List Effect
  publish_partial p kind content_index delta =
      let group_id = or_else p.marker.group_id "" in
      if session.session_id == "" || session.history_generation == "" || group_id == ""
      then []
      else partials_of group_id p kind content_index delta

  -- An empty delta is left out.
  abbrev updated : PendingMessage → Update → List Effect
  updated p (text_start i) = publish_partial p assistant_partial i none
  updated p (thinking_start i) = publish_partial p thinking_partial i none
  updated p (text_delta i []) = []
  updated p (text_delta i (u ∷ delta)) = publish_partial p assistant_partial i (some (u ∷ delta))
  updated p (thinking_delta i []) = []
  updated p (thinking_delta i (u ∷ delta)) = publish_partial p thinking_partial i (some (u ∷ delta))
  updated p other_update = []

  abbrev updated_found : Option PendingMessage → Update → List Effect
  updated_found none update = []
  updated_found (some p) update = updated p update

  abbrev update_role : Runtime → MessageRecord → MessageRole → Update → List Effect
  update_role r m assistant update = updated_found (find_pending platform r m) update
  update_role r m user update = []
  update_role r m tool_result update = []

  -- `onMessageUpdate`, for a message that `asMessageRecord` takes. It changes no state.
  unfoldable pub on_message_update : Runtime → MessageRecord → Update → List Effect
  on_message_update r m update =
      if r.session == some session.object then update_role r m m.role update else []
