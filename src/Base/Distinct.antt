-- ===== src/Base/Distinct.antt =====
-- Lists of which no two items have the same key.
use mathlib.Core.Path.{◌≡◌, refl}
use mathlib.Core.Bool.{Bool, false}
use mathlib.Core.List.{List, [], ◌∷◌, ◌++◌}
use native.Mathlib.Omega.{arith}
use remote_pi.Base.Lists.{any, any-append}
use remote_pi.Base.Equality.{Keyed, ◌==◌}

module _ {ℓ κ} {A : Type ℓ} {K : Type κ} ⦃e : Keyed K⦄ where
  abbrev pub has_key : (A → K) → K → List A → Bool
  has_key key k xs = any (λ x. key x == k) xs

  abbrev pub DistinctBy : (A → K) → List A → Type 0
  DistinctBy key [] = Unit
  DistinctBy key (x ∷ xs) = (has_key key (key x) xs ≡ false) × DistinctBy key xs

  -- An item with a new key is written at the end.
  pub DistinctBy-append :
      (key : A → K) (xs : List A) (x : A)
      → has_key key (key x) xs ≡ false
      → DistinctBy key xs
      → DistinctBy key (xs ++ x ∷ [])
  DistinctBy-append key [] x new distinct = (refl, tt)
  DistinctBy-append key (y ∷ xs) x new distinct = (
    ground (
      arith,
      any-append (λ z. key z == key y) xs (x ∷ []),
      e.same_iff (key x) (key y),
      e.same_iff (key y) (key x),
    ),
    DistinctBy-append key xs x (ground (arith, new)) distinct.1,
  )
