-- ===== src/TimelineStore/Selected.antt =====
-- timeline-store.ts: what `selectRecentTimelineEvents` retains.
use remote_pi.Base.{
  ℕ, any, ◌-◌, ◌≤◌, String, ◌≡◌, refl, inl, inr, true, Option, none, some, List, [], ◌∷◌, filter,
  length, drop, arith, All, All-map, All-sort_by, length-map, length-drop, sort_by, Bool-cases,
}
use remote_pi.Base.Equality.{◌==◌, string_eq}
use remote_pi.Transfer.Types.{TimelineEvent}
use remote_pi.Transfer.Checking.{Holds, Holds-bind}
use remote_pi.TimelineStore.{
  TimelineScope, TimelineEventWithGroup, Platform, max_recent_groups, event_group_id, not_in_scope,
  cons_grouped, to_grouped_events, event_before, latest_by_group, group_before, recent_group_ids,
  member, select_recent_timeline_events,
}

-- The item's event is persistable, and has the item's group.
abbrev pub IsGrouped : TimelineEventWithGroup → Type 0
IsGrouped item = event_group_id item.event ≡ some item.group_id

cons_grouped-IsGrouped :
    (e : TimelineEvent) (o : Option String) (rest : List TimelineEventWithGroup)
    → event_group_id e ≡ o
    → All IsGrouped rest
    → All IsGrouped (cons_grouped e o rest)
cons_grouped-IsGrouped e none rest own h = h
cons_grouped-IsGrouped e (some g) rest own h = (own, h)

to_grouped_events-IsGrouped :
    (scope : TimelineScope) (events : List TimelineEvent)
    → Holds (All IsGrouped) (to_grouped_events scope events)
unfolding to_grouped_events
to_grouped_events-IsGrouped scope [] = tt
to_grouped_events-IsGrouped scope (e ∷ events) = elim (Bool-cases (not_in_scope scope e)) [
  | inl other ↦ rw other tt
  | inr own ↦ rw own (
      Holds-bind (All IsGrouped) (All IsGrouped) (to_grouped_events scope events) _
        (to_grouped_events-IsGrouped scope events)
        (λ grouped. cons_grouped-IsGrouped e (event_group_id e) grouped refl))
]

-- The event is persistable and of one of the groups.
abbrev pub IsOf : List String → TimelineEvent → Type 0
IsOf groups e = (g : String) × (event_group_id e ≡ some g) × (any (λ i. i == g) groups ≡ true)

-- At most five groups, and events that are all of them.
abbrev pub IsRecent : List TimelineEvent → Type 0
IsRecent events =
    (groups : List String) × (length groups ≤ max_recent_groups) × All (IsOf groups) events

module _ (platform : Platform) where
  recent_group_ids-few :
      (items : List TimelineEventWithGroup)
      → length (recent_group_ids platform items) ≤ max_recent_groups
  unfolding recent_group_ids
  recent_group_ids-few items =
      let groups = sort_by (group_before platform) (latest_by_group platform items []) in
      omega (
        arith,
        length-map (λ (g : String × ℕ). g.0) (drop (length groups - max_recent_groups) groups),
        length-drop (length groups - max_recent_groups) groups,
      )

  passed_both :
      (groups : List String) (items : List TimelineEventWithGroup)
      → All IsGrouped items
      → All
          (λ (item : TimelineEventWithGroup). IsOf groups item.event)
          (filter (λ (item : TimelineEventWithGroup). member platform item.group_id groups) items)
  passed_both groups [] h = tt
  passed_both groups (item ∷ items) h = elim (Bool-cases (member platform item.group_id groups)) [
    | inl kept ↦ rw kept ((item.group_id, h.0, kept), passed_both groups items h.1)
    | inr dropped ↦ rw dropped (passed_both groups items h.1)
  ]

  -- What is retained, where no event is of another scope, is of at most five groups and persistable.
  pub select_recent_timeline_events-IsRecent :
      (scope : TimelineScope) (events : List TimelineEvent)
      → Holds IsRecent (select_recent_timeline_events platform scope events)
  unfolding select_recent_timeline_events
  select_recent_timeline_events-IsRecent scope events =
      Holds-bind (All IsGrouped) IsRecent (to_grouped_events scope events) _
        (to_grouped_events-IsGrouped scope events)
        (λ grouped. λ h.
          let groups = recent_group_ids platform grouped in
          let kept =
            filter (λ (item : TimelineEventWithGroup). member platform item.group_id groups)
              grouped in
          (
            groups,
            recent_group_ids-few grouped,
            All-map (λ (item : TimelineEventWithGroup). IsOf groups item.event) (IsOf groups)
                (λ item. item.event) (sort_by (event_before platform) kept) (λ item. λ own. own)
                (All-sort_by (event_before platform) _ kept (passed_both groups grouped h)),
          ))
