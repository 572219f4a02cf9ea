-- ===== src/TimelineStore/Retained.antt =====
-- timeline-store.ts: how much the table keeps of each scope.
use mathlib.Core.Option.{some-injective}
use remote_pi.Base.{
  ◌≤◌, String, ◌≡◌, refl, sym, ap, ◌∙◌, inl, inr, true, not, Option, none, some, List, [], ◌∷◌,
  ◌++◌, any, length, arith, All, All-weaken, All-filter_by, All-passed, Bool-cases,
}
use remote_pi.Base.Equality.{◌==◌, string_eq}
use remote_pi.Base.JsMap.{set, values, All-set}
use remote_pi.Transfer.Types.{TimelineEvent}
use remote_pi.Transfer.Chunks.{Checked, ok, fail}
use remote_pi.Transfer.Checking.{Holds, Holds-bind}
use remote_pi.TimelineStore.{
  TimelineScope, Platform, max_recent_groups, event_group_id, select_recent_timeline_events,
}
use remote_pi.TimelineStore.Selected.{IsOf, IsRecent, select_recent_timeline_events-IsRecent}
use remote_pi.TimelineStore.Database.{
  StoreRecord, Table, same_scope, put_all, find_timeline_conflict, records_for_scope, clear_scope,
  Outcome, record_of, to_records, events_of, incoming_records, retained_records, store_retained,
  unless_conflict, replace_with, replace_recent_window, commit_with, commit_realtime,
}

-- The record is of the scope, and of one of the groups.
abbrev IsRecordOf : TimelineScope → List String → StoreRecord → Type 0
IsRecordOf scope groups r = (r.scope ≡ scope) × (any (λ i. i == r.group_id) groups ≡ true)

abbrev AreRetained : TimelineScope → List StoreRecord → Type 0
AreRetained scope records =
    (groups : List String) × (length groups ≤ max_recent_groups)
    × All (IsRecordOf scope groups) records

-- For each scope, the records of it in the table are of at most five groups.
abbrev pub IsBounded : Table → Type 0
IsBounded table =
    (scope : TimelineScope)
    → (groups : List String) × (length groups ≤ max_recent_groups)
      × All
          (λ (e : String × StoreRecord).
            same_scope e.1.scope scope ≡ true → any (λ i. i == e.1.group_id) groups ≡ true)
          table

put_all-All :
    (P : String × StoreRecord → Type 0) (records : List StoreRecord) (table : Table)
    → All (λ (r : StoreRecord). P (r.id, r)) records
    → All P table
    → All P (put_all records table)
unfolding put_all
put_all-All P [] table new h = h
put_all-All P (r ∷ records) table new h =
    put_all-All P records (set table r.id r) new.1 (All-set P table r.id r new.0 h)

same_scope_trans :
    (a s t : TimelineScope) → same_scope s t ≡ true → same_scope a t ≡ true → same_scope a s ≡ true
same_scope_trans a s t st at_t = ground (
  arith,
  string_eq.same_iff s.device_id t.device_id,
  string_eq.same_iff s.endpoint_id t.endpoint_id,
  string_eq.same_iff s.session_id t.session_id,
  string_eq.same_iff s.history_generation t.history_generation,
  string_eq.same_iff a.device_id t.device_id,
  string_eq.same_iff a.endpoint_id t.endpoint_id,
  string_eq.same_iff a.session_id t.session_id,
  string_eq.same_iff a.history_generation t.history_generation,
  string_eq.same_iff a.device_id s.device_id,
  string_eq.same_iff a.endpoint_id s.endpoint_id,
  string_eq.same_iff a.session_id s.session_id,
  string_eq.same_iff a.history_generation s.history_generation,
)

clear_scope-IsBounded :
    (scope : TimelineScope) (table : Table) → IsBounded table → IsBounded (clear_scope scope table)
unfolding clear_scope
clear_scope-IsBounded scope table h t =
    let (groups, few, all) = h t in (groups, few, All-filter_by _ _ table all)

stored-IsBounded :
    (scope : TimelineScope) (records : List StoreRecord) (table : Table)
    → AreRetained scope records
    → IsBounded table
    → IsBounded (put_all records (clear_scope scope table))
unfolding clear_scope
stored-IsBounded scope records table (groups, few, new) h t =
    elim (Bool-cases (same_scope scope t)) [
      | inl same ↦ (
        groups,
        few,
        put_all-All _ records (clear_scope scope table)
            (All-weaken _ _ records (λ r. λ (own, kept). λ of_t. kept) new)
            (All-weaken _ _ (clear_scope scope table)
              (λ e. λ gone.
                λ of_t. absurd (ground (arith, gone, same_scope_trans e.1.scope scope t same of_t)))
              (All-passed (λ (e : String × StoreRecord). not (same_scope e.1.scope scope)) table)),
      )
      | inr other ↦
          let (old_groups, old_few, old) = h t in
          (
            old_groups,
            old_few,
            put_all-All _ records (clear_scope scope table)
                (All-weaken _ _ records
                  (λ r. λ (own, kept).
                    λ of_t. absurd (ground (arith, other, ap (λ s. same_scope s t) own, of_t)))
                  new)
                (All-filter_by _ _ table old),
          )
    ]

module _ (platform : Platform) (scope : TimelineScope) where
  record_of-IsRecordOf :
      (groups : List String) (e : TimelineEvent) (o : Option String)
      → event_group_id e ≡ o
      → IsOf groups e
      → Holds (IsRecordOf scope groups) (record_of platform scope e o)
  record_of-IsRecordOf groups e none own h = tt
  record_of-IsRecordOf groups e (some g) own (group_id, has_group, kept) =
      let same = some-injective g group_id (sym own ∙ has_group) in (refl, rw same kept)

  to_records-All :
      (groups : List String) (events : List TimelineEvent)
      → All (IsOf groups) events
      → Holds (All (IsRecordOf scope groups)) (to_records platform scope events)
  unfolding to_records
  to_records-All groups [] h = tt
  to_records-All groups (e ∷ events) h =
      Holds-bind (IsRecordOf scope groups) (All (IsRecordOf scope groups))
        (record_of platform scope e (event_group_id e)) _
        (record_of-IsRecordOf groups e (event_group_id e) refl h.0)
        (λ r. λ own.
          Holds-bind (All (IsRecordOf scope groups)) (All (IsRecordOf scope groups))
            (to_records platform scope events) _ (to_records-All groups events h.1)
            (λ records. λ all. (own, all)))

  Holds-weaken :
      (P Q : List StoreRecord → Type 0) (m : Checked (List StoreRecord))
      → ((a : List StoreRecord) → P a → Q a)
      → Holds P m
      → Holds Q m
  Holds-weaken P Q (ok a) f h = f a h
  Holds-weaken P Q (fail reason) f h = tt

  retained_records-AreRetained :
      (by_id : Table) → Holds (AreRetained scope) (retained_records platform scope by_id)
  unfolding retained_records
  retained_records-AreRetained by_id =
      Holds-bind IsRecent (AreRetained scope)
        (select_recent_timeline_events platform scope (events_of platform scope (values by_id))) _
        (select_recent_timeline_events-IsRecent platform scope
          (events_of platform scope (values by_id)))
        (λ retained. λ (groups, few, all).
          Holds-weaken (All (IsRecordOf scope groups)) (AreRetained scope)
            (to_records platform scope retained) (λ records. λ own. (groups, few, own))
            (to_records-All groups retained all))

  store_retained-IsBounded :
      (table : Table) (records : Checked (List StoreRecord))
      → Holds (AreRetained scope) records
      → IsBounded table
      → IsBounded (store_retained platform scope table records).0
  store_retained-IsBounded table (fail reason) new h = h
  store_retained-IsBounded table (ok records) new h = stored-IsBounded scope records table new h

  unless_conflict-IsBounded :
      (table : Table) (o : Option StoreRecord) (otherwise : Table × Outcome)
      → IsBounded table
      → IsBounded otherwise.0
      → IsBounded (unless_conflict platform scope table o otherwise).0
  unless_conflict-IsBounded table none otherwise h new = new
  unless_conflict-IsBounded table (some r) otherwise h new = clear_scope-IsBounded scope table h

  replace_with-IsBounded :
      (table : Table) (incoming : Checked (List StoreRecord))
      → IsBounded table
      → IsBounded (replace_with platform scope table incoming).0
  replace_with-IsBounded table (fail reason) h = h
  replace_with-IsBounded table (ok incoming) h =
      let by_id = put_all incoming [] in
      unless_conflict-IsBounded table
        (find_timeline_conflict (records_for_scope scope table) incoming)
        (store_retained platform scope table (retained_records platform scope by_id)) h
        (store_retained-IsBounded table (retained_records platform scope by_id)
          (retained_records-AreRetained by_id) h)

  commit_with-IsBounded :
      (table : Table) (incoming : Checked (List StoreRecord))
      → IsBounded table
      → IsBounded (commit_with platform scope table incoming).0
  commit_with-IsBounded table (fail reason) h = h
  commit_with-IsBounded table (ok []) h = h
  commit_with-IsBounded table (ok (r ∷ incoming)) h =
      let existing = records_for_scope scope table in
      let by_id = put_all (r ∷ incoming) (put_all existing []) in
      unless_conflict-IsBounded table (find_timeline_conflict existing (r ∷ incoming))
        (store_retained platform scope table (retained_records platform scope by_id)) h
        (store_retained-IsBounded table (retained_records platform scope by_id)
          (retained_records-AreRetained by_id) h)

-- The calls that write to the table, each for some scope.
pub data Call : Type 0 where
  replace : TimelineScope → List TimelineEvent → List TimelineEvent → Call
  commit : TimelineScope → List TimelineEvent → Call
  clear : TimelineScope → Call

unfoldable pub run_call : Platform → Call → Table → Table
run_call platform (replace scope events realtime_journal) table =
    (replace_recent_window platform scope events realtime_journal table).0
run_call platform (commit scope events) table = (commit_realtime platform scope events table).0
run_call platform (clear scope) table = clear_scope scope table

unfoldable pub run_calls : Platform → List Call → Table → Table
run_calls platform [] table = table
run_calls platform (c ∷ calls) table = run_calls platform calls (run_call platform c table)

-- Whatever windows and events are stored, in whatever order and for whatever scopes, conflicts and
-- failures included, a table that keeps events of at most five groups for each scope does so after.
pub run_calls-IsBounded :
    (platform : Platform) (calls : List Call) (table : Table)
    → IsBounded table
    → IsBounded (run_calls platform calls table)
unfolding run_calls run_call replace_recent_window commit_realtime
run_calls-IsBounded platform [] table h = h
run_calls-IsBounded platform (replace scope events realtime_journal ∷ calls) table h =
    run_calls-IsBounded platform calls _ (
      replace_with-IsBounded platform scope table
        (incoming_records platform scope (events ++ realtime_journal)) h)
run_calls-IsBounded platform (commit scope events ∷ calls) table h =
    run_calls-IsBounded platform calls _
      (commit_with-IsBounded platform scope table (incoming_records platform scope events) h)
run_calls-IsBounded platform (clear scope ∷ calls) table h =
    run_calls-IsBounded platform calls _ (clear_scope-IsBounded scope table h)
