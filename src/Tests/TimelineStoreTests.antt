-- ===== src/Tests/TimelineStoreTests.antt =====
-- timeline-store.ts: an empty table, and a user's event that comes twice with another content.
use remote_pi.Base.{arith, true, [], ◌∷◌, ◌++◌}
use remote_pi.Transfer.Types.{TimelineEvent}
use remote_pi.TimelineStore.{TimelineScope, Platform}
use remote_pi.TimelineStore.Database.{
  Table, incoming_records, replace_recent_window, commit_realtime,
}
use remote_pi.TimelineStore.Retained.{
  replace, commit, clear, IsBounded, run_calls, run_calls-IsBounded,
}
use remote_pi.TimelineStore.Conflicts.{EndsWell, replace_commit-EndsWell}
use remote_pi.Tests.TransferTests.{sample_event}

abbrev platform : Platform
platform = record { locale_le = λ a. λ b. true; join_encoded = λ parts. "id" }

abbrev scope : TimelineScope
scope = record { device_id = "d"; endpoint_id = "p"; session_id = "s"; history_generation = "g" }

abbrev other_event : TimelineEvent
other_event = record sample_event { body = "other" }

run_calls-IsBounded_example : IsBounded (
    run_calls platform
      (replace scope (sample_event ∷ []) [] ∷ commit scope (other_event ∷ []) ∷ clear scope ∷ [])
      [])
run_calls-IsBounded_example =
    run_calls-IsBounded platform
      (replace scope (sample_event ∷ []) [] ∷ commit scope (other_event ∷ []) ∷ clear scope ∷ []) []
      (λ scope. ([], omega arith, tt))

abbrev table : Table
table = (replace_recent_window platform scope (sample_event ∷ []) [] []).0

replace_commit-EndsWell_example :
    EndsWell scope table
      (incoming_records platform scope ((other_event ∷ []) ++ []))
      (replace_recent_window platform scope (other_event ∷ []) [] table)
    × EndsWell scope table
        (incoming_records platform scope (other_event ∷ []))
        (commit_realtime platform scope (other_event ∷ []) table)
replace_commit-EndsWell_example = replace_commit-EndsWell platform scope (other_event ∷ []) [] table
