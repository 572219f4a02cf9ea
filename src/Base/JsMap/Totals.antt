-- ===== src/Base/JsMap/Totals.antt =====
-- Sums over the values of a map, under writes and deletions.
use Prim.Native.Nat.{ℕ, ◌+◌}
use mathlib.Core.Path.{◌≡◌, refl}
use mathlib.Core.Logic.{inl, inr}
use mathlib.Core.Option.{Option, none, some}
use mathlib.Core.List.{[], ◌∷◌}
use native.Mathlib.Omega.{arith}
use remote_pi.Base.Tests.{Bool-cases}
use remote_pi.Base.Equality.{Keyed, ◌==◌}
use remote_pi.Base.JsMap.{JsMap, get, set, delete}
use remote_pi.Base.JsMap.Unique.{UniqueKeys}

module _ {ℓ} {V : Type ℓ} (f : V → ℕ) where
  abbrev pub value_at : Option V → ℕ
  value_at none = 0
  value_at (some v) = f v

  abbrev pub total {κ} : {K : Type κ} → JsMap K V → ℕ
  total [] = 0
  total ((k, v) ∷ m) = f v + total m

module _ {K V : Type 0} ⦃e : Keyed K⦄ (f : V → ℕ) where
  pub delete_absent : (m : JsMap K V) (k : K) → get m k ≡ none → delete m k ≡ m
  unfolding get delete
  delete_absent [] k h = refl
  delete_absent ((j, w) ∷ m) k h = ground (arith, delete_absent m k)

  pub total-set :
      (m : JsMap K V) (k : K) (v : V) → total f (set m k v) + value_at f (get m k) ≡ total f m + f v
  unfolding get set
  total-set [] k v = omega arith
  total-set ((j, w) ∷ m) k v = elim (Bool-cases (j == k)) [
    | inl same ↦ rw same (omega arith)
    | inr other ↦ rw other (omega (arith, total-set m k v))
  ]

  pub total-delete :
      (m : JsMap K V) (k : K)
      → UniqueKeys m
      → total f (delete m k) + value_at f (get m k) ≡ total f m
  unfolding get delete
  total-delete [] k u = refl
  total-delete ((j, w) ∷ m) k u = elim (Bool-cases (j == k)) [
    | inl same ↦ ground (arith, same, (e.same_iff j k).0 same, delete_absent m k, u.0)
    | inr other ↦ ground (arith, other, total-delete m k)
  ]
