-- ===== src/Tests/HistoryTests.antt =====
-- history.ts: a session of two messages, of which one event is sent in fragments.
use remote_pi.Base.{
  ◌+◌, ◌*◌, String, ◌≡◌, refl, true, false, Option, none, some, List, [], ◌∷◌, length, arith,
  is_some,
}
use remote_pi.Base.JsMap.{get}
use remote_pi.Transfer.Types.{EventKind, EventStatus, TimelineEvent}
use remote_pi.History.{
  message_entry, Session, Host, Request, CursorState, EventRecord, invalid_cursor, reset, Pager,
  new_pager, Protocol,
}
use remote_pi.History.Window.{select_window}
use remote_pi.History.Sync.{Step, step, sync_all}
use remote_pi.History.SingleUse.{step-spent_cursor}
use remote_pi.History.Packing.{Gives}
use remote_pi.History.Selection.{IsPage, select_window-IsPage}
use remote_pi.History.Following.{follow, follow-some}

abbrev protocol : Protocol
protocol = record {
  parse_event = λ event. some event;
  event_bytes = λ event. 10;
  frame_bytes = λ channel. λ chunk. 100 + 60000 * length chunk.events + length chunk.fragments;
  encode = λ event. 1 ∷ 2 ∷ [];
  to_base64 = λ bytes. "AQI=";
  encode_error = λ channel. λ chunk. none;
  group_too_large = λ group. "too large";
}

abbrev user_event : String → Option String → TimelineEvent
user_event id group_id = record {
  event_id = id;
  session_id = "s";
  history_generation = "g";
  kind = EventKind.user;
  group_id = group_id;
  timestamp = 1;
  status = EventStatus.committed;
  body = "";
}

abbrev session : Session
session = record {
  session_id = "s";
  history_generation = "g";
  branch =
      record { id = "a"; kind = message_entry } ∷ record { id = "b"; kind = message_entry } ∷ [];
  branch_at = λ id.
      record { id = "a"; kind = message_entry } ∷ record { id = "b"; kind = message_entry } ∷ [];
  leaf_id = some "b";
}

abbrev host : Host
host = record {
  session = session;
  recovered = some (user_event "legacy:a" (some "u") ∷ user_event "legacy:b" (some "v") ∷ []);
  session_after = session;
}

abbrev ask : Option String → Request
ask before = record { request_id = "r"; target_channel_id = "c"; before = before; limit = some 1 }

abbrev older : CursorState
older = record {
  session_id = "s";
  history_generation = "g";
  snapshot_head = "b";
  branch_entry_ids = "a" ∷ "b" ∷ [];
  position = 1;
  used = false;
  busy = false;
}

abbrev pager : Pager
pager = record { cursors = ("k", older) ∷ []; initial_busy = false }

abbrev first : Step
first = record { host = host; token = "t"; request = ask (some "k") }

abbrev later : Step
later = record { host = host; token = "w"; request = ask (some "k") }

step-spent_cursor_example :
    let pager' = sync_all protocol (first ∷ []) pager in
    step protocol later pager' ≡ (pager', reset "c" "s" "g" invalid_cursor ∷ [])
unfolding get
step-spent_cursor_example =
    step-spent_cursor protocol pager "k" first [] later refl refl refl (refl, tt)

follow-some_example :
    is_some (follow protocol (ask none) (λ i. host) (λ i. "t") 3 0 new_pager none) ≡ true
follow-some_example = follow-some protocol (ask none) (λ i. host) (λ i. "t") new_pager

abbrev records : List EventRecord
records =
    record { event = user_event "legacy:a" (some "u"); position = 0; order = 0; bytes = 10 }
    ∷ record { event = user_event "legacy:b" (some "v"); position = 1; order = 1; bytes = 10 }
    ∷ []

select_window-IsPage_example : Gives (IsPage 2) (select_window protocol records 2 (some 1))
select_window-IsPage_example =
    select_window-IsPage protocol records 2 (some 1) (omega arith, (omega arith, tt))
