-- ===== src/SessionState/Owners.antt =====
-- session_state.ts: what removing an owner forgets.
use remote_pi.Base.{
  ℕ, String, ◌≡◌, ap, sym, ◌∙◌, refl, not, Bool, Option, none, some, arith, ltb, ◌+◌,
}
use remote_pi.Base.Equality.{◌==◌, string_eq}
use remote_pi.Base.JsMap.{get}
use remote_pi.Base.JsMap.Unique.{keep_if}
use remote_pi.Base.JsMap.Deleting.{get-delete_where}
use remote_pi.SessionState.Types.{ChannelState, IdempotencyRecord, State}
use remote_pi.SessionState.Records.{remove_owner, get_record}
use remote_pi.SessionState.Preserve.{IsWellFormed}
use remote_pi.SessionState.Idempotency.{get_record_exact}
use remote_pi.SessionState.Invariant.{remove_owner-IsWellFormed}

keep_if-keep_if :
    {V : Type 0} (p q : String × V → Bool) (k : String) (o : Option V)
    → keep_if p k (keep_if q k o) ≡ keep_if q k (keep_if p k o)
keep_if-keep_if p q k none = refl
keep_if-keep_if p q k (some v) = ground arith

-- In a well-formed state, the loops that remove an owner leave of the channels what other owners
-- have, and `getRecord` answers at any time what it would have, except for the records of that owner,
-- which it no longer knows.
pub remove_owner_exact :
    (sender_ref : String) (s : State) (now : ℕ) (key : String)
    → IsWellFormed s
    → let s' = remove_owner sender_ref s in
      ((get_record now key s').1
        ≡ keep_if (λ e. not (e.1.sender_ref == sender_ref)) key (get_record now key s).1)
      × (get s'.records key
          ≡ keep_if (λ e. not (e.1.sender_ref == sender_ref)) key (get s.records key))
      × (get s'.channels key
          ≡ keep_if (λ e. not (e.1.sender_ref == sender_ref)) key (get s.channels key))
unfolding remove_owner
remove_owner_exact sender_ref s now key h =
    let live : String × IdempotencyRecord → Bool = λ e. ltb now (e.1.touched_at + s.ttl_ms) in
    let other : String × IdempotencyRecord → Bool = λ e. not (e.1.sender_ref == sender_ref) in
    let records =
      get-delete_where (λ (r : IdempotencyRecord). r.sender_ref == sender_ref) s.records key
        h.unique in
    (
      get_record_exact now key (remove_owner sender_ref s)
            (remove_owner-IsWellFormed sender_ref s h)
          ∙ (ap (keep_if live key) records
              ∙ (keep_if-keep_if live other key (get s.records key)
                  ∙ ap (keep_if other key) (sym (get_record_exact now key s h)))),
      records,
      get-delete_where (λ (c : ChannelState). c.sender_ref == sender_ref) s.channels key
          h.unique_channels,
    )
