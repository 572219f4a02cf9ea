-- ===== src/Base/JsMap/Unique.antt =====
-- No key stands twice in a map, what a read returns satisfies what all entries do, and deleting
-- from a map leaves fewer keys.
use mathlib.Core.Path.{◌≡◌, refl, ◌∙◌, subst}
use mathlib.Core.Logic.{inl, inr}
use mathlib.Core.Bool.{Bool}
use mathlib.Core.Option.{Option, none, some}
use mathlib.Core.List.{List, [], ◌∷◌}
use native.Mathlib.Omega.{arith}
use remote_pi.Base.Tests.{if◌then◌else◌, Bool-cases}
use remote_pi.Base.Lists.{filter, All}
use remote_pi.Base.Equality.{Keyed, ◌==◌, ==_self}
use remote_pi.Base.JsMap.{JsMap, get, set, delete, get-set, get-delete}

module _ {ℓ κ} {K : Type ℓ} {V : Type κ} ⦃e : Keyed K⦄ where
  abbrev pub UniqueKeys : JsMap K V → Type κ
  UniqueKeys [] = Unit
  UniqueKeys ((k, v) ∷ m) = (get m k ≡ none) × UniqueKeys m

  pub UniqueKeys-set : (m : JsMap K V) (k : K) (v : V) → UniqueKeys m → UniqueKeys (set m k v)
  unfolding set
  UniqueKeys-set [] k v h = (unfold get in refl, tt)
  UniqueKeys-set ((j, w) ∷ m) k v h = elim (Bool-cases (j == k)) [
    | inl same ↦ rw same (subst (λ i. get m i ≡ none) ((e.same_iff j k).0 same) h.0, h.1)
    | inr other ↦ rw other (
      get-set m k j v ∙ ground (arith, h.0, e.same_iff j k, e.same_iff k j),
      UniqueKeys-set m k v h.1,
    )
  ]

  pub UniqueKeys-delete : (m : JsMap K V) (k : K) → UniqueKeys m → UniqueKeys (delete m k)
  unfolding delete
  UniqueKeys-delete [] k h = tt
  UniqueKeys-delete ((j, w) ∷ m) k h = elim (Bool-cases (j == k)) [
    | inl same ↦ rw same (UniqueKeys-delete m k h.1)
    | inr other ↦ rw other (ground (arith, get-delete m k j, h.0), UniqueKeys-delete m k h.1)
  ]

  pub get-filter_absent :
      (p : K × V → Bool) (m : JsMap K V) (k : K) → get m k ≡ none → get (filter p m) k ≡ none
  unfolding get
  get-filter_absent p [] k h = refl
  get-filter_absent p ((j, v) ∷ m) k h = ground (arith, get-filter_absent p m k)

  pub UniqueKeys-filter :
      (p : K × V → Bool) (m : JsMap K V) → UniqueKeys m → UniqueKeys (filter p m)
  UniqueKeys-filter p [] h = tt
  UniqueKeys-filter p ((j, w) ∷ m) h = elim (Bool-cases (p (j, w))) [
    | inl kept ↦ rw kept (get-filter_absent p m j h.0, UniqueKeys-filter p m h.1)
    | inr gone ↦ rw gone (UniqueKeys-filter p m h.1)
  ]

  -- What a read finds is an entry.
  pub All-get {μ} :
      (P : K × V → Type μ) (m : JsMap K V) (k : K) (v : V) → All P m → get m k ≡ some v → P (k, v)
  unfolding get
  All-get P [] k v h q = absurd (ground arith)
  All-get P ((j, w) ∷ m) k v h q = elim (Bool-cases (j == k)) [
    | inl same ↦ subst P (cc ((e.same_iff j k).0 same, (rw same at q))) h.0
    | inr other ↦ All-get P m k v h.1 (rw other at q)
  ]

module _ {ℓ μ} {A : Type ℓ} (P : A → Type μ) where
  pub All-filter : (p : A → Bool) (m : List A) → All P m → All P (filter p m)
  All-filter p [] h = tt
  All-filter p (x ∷ m) h = elim (Bool-cases (p x)) [
    | inl kept ↦ rw kept (h.0, All-filter p m h.1)
    | inr gone ↦ rw gone (All-filter p m h.1)
  ]

-- What a filter on entries leaves of the value at a key.
abbrev pub keep_if {ℓ κ} : {K : Type ℓ} {V : Type κ} → (K × V → Bool) → K → Option V → Option V
keep_if p k none = none
keep_if p k (some v) = if p (k, v) then some v else none

module _ {ℓ κ} {K : Type ℓ} {V : Type κ} ⦃e : Keyed K⦄ where
  -- A read after a filter, where no key stands twice.
  pub get-filter :
      (p : K × V → Bool) (m : JsMap K V) (k : K)
      → UniqueKeys m
      → get (filter p m) k ≡ keep_if p k (get m k)
  unfolding get
  get-filter p [] k h = refl
  get-filter p ((j, v) ∷ m) k h = elim (Bool-cases (j == k)) [
    | inl same ↦
        subst (λ i. get (filter p ((j, v) ∷ m)) i ≡ keep_if p i (get ((j, v) ∷ m) i))
          ((e.same_iff j k).0 same) (ground (arith, ==_self j, get-filter_absent p m j h.0))
    | inr other ↦ ground (arith, other, get-filter p m k h.1)
  ]
