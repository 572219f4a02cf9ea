-- ===== src/Transfer/Checking.antt =====
-- timeline-transfer.ts: steps that return or discard, and the events that a window holds.
use remote_pi.Base.{
  ℕ, String, ◌≡◌, refl, Bool, true, false, Option, none, some, List, [], ◌∷◌, arith, All,
  All-append, if◌then◌else◌,
}
use remote_pi.Base.Equality.{string_eq, nat_eq}
use remote_pi.Base.JsMap
use remote_pi.Base.JsMap.{JsMap, values, All-set}
use remote_pi.Base.JsMap.Unique.{All-get, All-filter}
use remote_pi.Transfer.Types.{
  TimelineEvent, TimelineTransferScope, HistoryChunkFrame, TransferResult, complete, in_scope,
}
use remote_pi.Transfer.Fragments.{}
use remote_pi.Transfer.Chunks.{
  HistoryScope, Window, Checked, ok, fail, ◌>>=◌, ◌>>◌, discard_if, or_fail, same_session,
  resolve_events, resolve_chunks, sort_chunks, window_events,
}
use remote_pi.Transfer.Window.{}

-- If the step returns, its value has the property.
abbrev pub Holds {ℓ} : {A : Type ℓ} → (A → Type 0) → Checked A → Type 0
Holds P (ok a) = P a
Holds P (fail reason) = Unit

pub Holds-bind {ℓ κ} :
    {A : Type ℓ} {B : Type κ} (P : A → Type 0) (Q : B → Type 0) (m : Checked A) (f : A → Checked B)
    → Holds P m
    → ((a : A) → P a → Holds Q (f a))
    → Holds Q (m >>= f)
unfolding ◌>>=◌
Holds-bind P Q (ok a) f p rest = rest a p
Holds-bind P Q (fail reason) f p rest = tt

pub Holds-discard_if {ℓ} :
    {B : Type ℓ} (Q : B → Type 0) (bad : Bool) (reason : String) (k : Checked B)
    → (bad ≡ false → Holds Q k)
    → Holds Q (discard_if bad reason >> k)
unfolding ◌>>=◌ discard_if
Holds-discard_if Q true reason k rest = tt
Holds-discard_if Q false reason k rest = rest refl

pub Holds-or_fail {ℓ κ} :
    {A : Type ℓ} {B : Type κ} (Q : B → Type 0) (o : Option A) (reason : String) (f : A → Checked B)
    → ((a : A) → Holds Q (f a))
    → Holds Q (or_fail o reason >>= f)
unfolding ◌>>=◌ or_fail
Holds-or_fail Q none reason f rest = tt
Holds-or_fail Q (some a) reason f rest = rest a

pub Holds-any {ℓ} : {A : Type ℓ} (m : Checked A) → Holds (λ a. Unit) m
Holds-any (ok a) = tt
Holds-any (fail reason) = tt

pub Holds-unless {ℓ} :
    {A : Type ℓ} (P : A → Type 0) (bad : Bool) (reason : String) (a : A)
    → P a
    → Holds P (if bad then fail reason else ok a)
Holds-unless P true reason a p = tt
Holds-unless P false reason a p = p

-- An event of the scope.
abbrev pub InScope : TimelineTransferScope → TimelineEvent → Type 0
InScope scope e = in_scope scope e.session_id e.history_generation ≡ true

abbrev pub ResultInScope : TimelineTransferScope → TransferResult → Type 0
ResultInScope scope (complete e) = InScope scope e
ResultInScope scope _ = Unit

pub in_scope_trans :
    (a b : TimelineTransferScope) (session_id history_generation : String)
    → same_session a b ≡ true
    → in_scope a session_id history_generation ≡ true
    → in_scope b session_id history_generation ≡ true
in_scope_trans a b x y same h = ground (
  arith,
  string_eq.same_iff x a.session_id,
  string_eq.same_iff y a.history_generation,
  string_eq.same_iff a.session_id b.session_id,
  string_eq.same_iff a.history_generation b.history_generation,
  string_eq.same_iff x b.session_id,
  string_eq.same_iff y b.history_generation,
)

-- The events that a window holds are of the scope, and so is its own scope.
pub record IsScoped (scope : TimelineTransferScope) (w : Window) : Type 0 where
  pub held : All (λ e. InScope scope e.1) w.complete_events
  pub bound : (own : HistoryScope) → w.scope ≡ some own → same_session own.session scope ≡ true

pub values-All :
    {K V : Type 0} (P : V → Type 0) (m : JsMap K V) → All (λ e. P e.1) m → All P (values m)
values-All P [] h = tt
values-All P (e ∷ m) h = (h.0, values-All P m h.1)

pub cons_found-InScope :
    (scope : TimelineTransferScope) (found : Option TimelineEvent) (rest : List TimelineEvent)
    → ((e : TimelineEvent) → found ≡ some e → InScope scope e)
    → All (InScope scope) rest
    → All (InScope scope) (elim found [ none ↦ rest | some e ↦ e ∷ rest ])
cons_found-InScope scope none rest one h = h
cons_found-InScope scope (some e) rest one h = (one e refl, h)

pub resolve_events-InScope :
    (scope : TimelineTransferScope) (held : JsMap String TimelineEvent)
    (events : List TimelineEvent)
    → All (λ e. InScope scope e.1) held
    → All (InScope scope) (resolve_events held events)
unfolding resolve_events
resolve_events-InScope scope held [] h = tt
resolve_events-InScope scope held (e ∷ events) h =
    cons_found-InScope scope (JsMap.get held e.event_id) (resolve_events held events)
      (λ found. λ at_id. All-get (λ e. InScope scope e.1) held e.event_id found h at_id)
      (resolve_events-InScope scope held events h)

pub resolve_chunks-InScope :
    (scope : TimelineTransferScope) (held : JsMap String TimelineEvent)
    (chunks : List (ℕ × HistoryChunkFrame))
    → All (λ e. InScope scope e.1) held
    → All (InScope scope) (resolve_chunks held chunks)
unfolding resolve_chunks
resolve_chunks-InScope scope held [] h = tt
resolve_chunks-InScope scope held (c ∷ chunks) h =
    All-append _ _ _ (resolve_events-InScope scope held c.1.events h)
      (resolve_chunks-InScope scope held chunks h)

pub window_events-InScope :
    (scope : TimelineTransferScope) (w : Window)
    → All (λ e. InScope scope e.1) w.complete_events
    → All (InScope scope) (window_events w)
unfolding window_events
window_events-InScope scope w h =
    All-append _ _ _ (resolve_chunks-InScope scope w.complete_events (sort_chunks w.chunks) h)
      (All-filter _ _ _ (values-All _ w.complete_events h))
