-- ===== src/TimelineStore/Conflicts.antt =====
-- timeline-store.ts: how a transaction ends, and events that conflict.
use mathlib.Core.Option.{some-injective}
use remote_pi.Base.{
  String, ◌≡◌, refl, sym, ap, ◌∙◌, ◌⊎◌, inl, inr, true, false, Option, none, some, List, [], ◌∷◌,
  ◌++◌, arith, All, All-weaken, Bool-cases,
}
use remote_pi.Base.Equality.{◌==◌, string_eq}
use remote_pi.Base.JsMap.{get, get-set}
use remote_pi.Base.Membership.{In}
use remote_pi.Transfer.Types.{TimelineEvent}
use remote_pi.Transfer.Chunks.{Checked, ok, fail}
use remote_pi.TimelineStore.{TimelineScope, Platform}
use remote_pi.TimelineStore.Database.{
  StoreRecord, Table, same_event, put_all, conflicts_with, add_new, find_in, find_timeline_conflict,
  records_for_scope, clear_scope, Outcome, stored, conflict, failed, incoming_records,
  retained_records, store_retained, unless_conflict, replace_with, replace_recent_window,
  commit_with, commit_realtime,
}

-- The record has the same event as the record that is known under its id, if any.
abbrev pub Agrees : Table → StoreRecord → Type 0
Agrees known r =
    (previous : StoreRecord)
    → get known r.id ≡ some previous
    → same_event previous.event r.event ≡ true

-- Another event has the record's id: it is known, or comes too.
abbrev pub Conflicts : Table → List StoreRecord → StoreRecord → Type 0
Conflicts known incoming r =
    (previous : StoreRecord) × (same_event previous.event r.event ≡ false)
    × ((get known r.id ≡ some previous) ⊎ (In previous incoming × (previous.id ≡ r.id)))

-- What is known stays known.
add_new-keeps :
    (known : Table) (r : StoreRecord) (o : Option StoreRecord) (k : String) (v : StoreRecord)
    → get known r.id ≡ o
    → get known k ≡ some v
    → get (add_new o r known) k ≡ some v
add_new-keeps known r (some previous) k v at_id at_k = at_k
add_new-keeps known r none k v at_id at_k = elim (Bool-cases (r.id == k)) [
  | inl same ↦
      let nothing = ap (get known) (sym ((string_eq.same_iff r.id k).0 same)) ∙ at_id in
      absurd (ground (arith, nothing, at_k))
  | inr other ↦ rw (get-set known r.id k r, other) at_k
]

-- What is known after a record came was known before, or is that record.
add_new-knows :
    (known : Table) (r : StoreRecord) (o : Option StoreRecord) (k : String) (v : StoreRecord)
    → get (add_new o r known) k ≡ some v
    → (get known k ≡ some v) ⊎ ((r ≡ v) × (r.id ≡ k))
add_new-knows known r (some previous) k v at_k = inl at_k
add_new-knows known r none k v at_k = elim (Bool-cases (r.id == k)) [
  | inl same ↦
      let written : some r ≡ some v = rw (get-set known r.id k r, same) at at_k in
      inr (some-injective r v written, (string_eq.same_iff r.id k).0 same)
  | inr other ↦ inl (rw (get-set known r.id k r, other) at at_k)
]

conflicts_with-Agrees :
    (known : Table) (r : StoreRecord) (o : Option StoreRecord)
    → get known r.id ≡ o
    → conflicts_with o r ≡ false
    → Agrees known r
conflicts_with-Agrees known r none at_id calm previous found = absurd (ground (arith, at_id, found))
conflicts_with-Agrees known r (some old) at_id calm previous found =
    let same = some-injective old previous (sym at_id ∙ found) in rw⁻¹ same (ground (arith, calm))

find_in-Agrees :
    (known : Table) (incoming : List StoreRecord)
    → find_in known incoming ≡ none
    → All (Agrees known) incoming
unfolding find_in
find_in-Agrees known [] calm = tt
find_in-Agrees known (r ∷ incoming) calm =
    let o = get known r.id in
    elim (Bool-cases (conflicts_with o r)) [
      | inl clash ↦ absurd (ground (arith, clash, calm))
      | inr fine ↦ (
        conflicts_with-Agrees known r o refl fine,
        All-weaken (Agrees (add_new o r known)) (Agrees known) incoming
            (λ s. λ agrees. λ previous.
              λ found. agrees previous (add_new-keeps known r o s.id previous refl found))
            (find_in-Agrees (add_new o r known) incoming (rw fine at calm)),
      )
    ]

In-cons : (x y : StoreRecord) (xs : List StoreRecord) → In x xs → In x (y ∷ xs)
In-cons x y xs (before, after, e) = (y ∷ before, after, ap (λ l. y ∷ l) e)

clash-Conflicts :
    (known : Table) (r : StoreRecord) (incoming : List StoreRecord) (o : Option StoreRecord)
    → get known r.id ≡ o
    → conflicts_with o r ≡ true
    → Conflicts known incoming r
clash-Conflicts known r incoming none at_id clash = absurd (ground (arith, clash))
clash-Conflicts known r incoming (some previous) at_id clash =
    (previous, ground (arith, clash), inl at_id)

later-Conflicts :
    (known : Table) (r c : StoreRecord) (incoming : List StoreRecord)
    → Conflicts (add_new (get known r.id) r known) incoming c
    → Conflicts known (r ∷ incoming) c
later-Conflicts known r c incoming (previous, differs, inr (inside, same_id)) =
    (previous, differs, inr (In-cons previous r incoming inside, same_id))
later-Conflicts known r c incoming (previous, differs, inl found) =
    elim (add_new-knows known r (get known r.id) c.id previous found) [
      | inl before ↦ (previous, differs, inl before)
      | inr (same, same_id) ↦ (
        previous,
        differs,
        inr (
          ([], incoming, ap (λ x. x ∷ incoming) (sym same)),
          ap (λ (x : StoreRecord). x.id) (sym same) ∙ same_id,
        ),
      )
    ]

find_in-Conflicts :
    (known : Table) (incoming : List StoreRecord) (c : StoreRecord)
    → find_in known incoming ≡ some c
    → In c incoming × Conflicts known incoming c
unfolding find_in
find_in-Conflicts known [] c found = absurd (ground (arith, found))
find_in-Conflicts known (r ∷ incoming) c found =
    let o = get known r.id in
    elim (Bool-cases (conflicts_with o r)) [
      | inl clash ↦
          let same = some-injective r c (rw clash at found) in
          rw⁻¹ same (([], incoming, refl), clash-Conflicts known r (r ∷ incoming) o refl clash)
      | inr fine ↦
          let (inside, conflicts) =
            find_in-Conflicts (add_new o r known) incoming c (rw fine at found) in
          (In-cons c r incoming inside, later-Conflicts known r c incoming conflicts)
    ]

-- How a transaction may end, from what it found of its scope and what came.
-- Stored: every record that came agrees with what was known. Conflict: the scope is cleared, and a
-- record that came, with that event id, conflicts. Failed: the table is as it was.
abbrev pub EndsWell : TimelineScope → Table → Checked (List StoreRecord) → Table × Outcome → Type 0
EndsWell scope table (fail reason) (after, outcome) = (after ≡ table) × (outcome ≡ failed reason)
EndsWell scope table (ok incoming) (after, stored) =
    All (Agrees (put_all (records_for_scope scope table) [])) incoming
EndsWell scope table (ok incoming) (after, conflict event_id) =
    (after ≡ clear_scope scope table)
    × (c : StoreRecord) × (c.event_id ≡ event_id)
    × In c incoming
    × Conflicts (put_all (records_for_scope scope table) []) incoming c
EndsWell scope table (ok incoming) (after, failed reason) = after ≡ table

module _ (platform : Platform) (scope : TimelineScope) where
  store_retained-EndsWell :
      (table : Table) (incoming : List StoreRecord) (records : Checked (List StoreRecord))
      → All (Agrees (put_all (records_for_scope scope table) [])) incoming
      → EndsWell scope table (ok incoming) (store_retained platform scope table records)
  store_retained-EndsWell table incoming (fail reason) agree = refl
  store_retained-EndsWell table incoming (ok records) agree = agree

  unless_conflict-EndsWell :
      (table : Table) (incoming : List StoreRecord) (o : Option StoreRecord)
      (records : Checked (List StoreRecord))
      → find_timeline_conflict (records_for_scope scope table) incoming ≡ o
      → EndsWell scope table
          (ok incoming)
          (unless_conflict platform scope table o (store_retained platform scope table records))
  unfolding find_timeline_conflict
  unless_conflict-EndsWell table incoming none records found =
      store_retained-EndsWell table incoming records
        (find_in-Agrees (put_all (records_for_scope scope table) []) incoming found)
  unless_conflict-EndsWell table incoming (some c) records found =
      let known = put_all (records_for_scope scope table) [] in
      let (inside, clash) = find_in-Conflicts known incoming c found in
      (refl, c, refl, inside, clash)

  replace_with-EndsWell :
      (table : Table) (incoming : Checked (List StoreRecord))
      → EndsWell scope table incoming (replace_with platform scope table incoming)
  replace_with-EndsWell table (fail reason) = (refl, refl)
  replace_with-EndsWell table (ok incoming) =
      unless_conflict-EndsWell table incoming _
        (retained_records platform scope (put_all incoming [])) refl

  commit_with-EndsWell :
      (table : Table) (incoming : Checked (List StoreRecord))
      → EndsWell scope table incoming (commit_with platform scope table incoming)
  commit_with-EndsWell table (fail reason) = (refl, refl)
  commit_with-EndsWell table (ok []) = tt
  commit_with-EndsWell table (ok (r ∷ incoming)) =
      unless_conflict-EndsWell table (r ∷ incoming) _
        (retained_records platform scope
          (put_all (r ∷ incoming) (put_all (records_for_scope scope table) [])))
        refl

  -- For any table and any events, a window that is stored and events that are committed end in one of
  -- three ways. Stored: each record that came has the same event as the one the scope had under its
  -- id, if it had one. Conflict: the scope is cleared, and the event that is named came and has
  -- another content than one that the scope had, or that came, under its id. Failed: the table is as
  -- it was; so it is where an event is of another session, with that error.
  pub replace_commit-EndsWell :
      (events realtime_journal : List TimelineEvent) (table : Table)
      → EndsWell scope table
          (incoming_records platform scope (events ++ realtime_journal))
          (replace_recent_window platform scope events realtime_journal table)
        × EndsWell scope table
            (incoming_records platform scope events)
            (commit_realtime platform scope events table)
  unfolding replace_recent_window commit_realtime
  replace_commit-EndsWell events realtime_journal table = (
    replace_with-EndsWell table (incoming_records platform scope (events ++ realtime_journal)),
    commit_with-EndsWell table (incoming_records platform scope events),
  )
