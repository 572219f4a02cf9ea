-- ===== src/Base/Sorting.antt =====
-- `Array.prototype.sort`, which is stable, and `flatMap` and sums of lists.
use Prim.Native.Nat.{ℕ, zero, suc, ◌+◌}
use mathlib.Core.Path.{◌≡◌, refl}
use mathlib.Core.Logic.{inl, inr}
use mathlib.Core.Bool.{Bool, true}
use mathlib.Core.List.{List, [], ◌∷◌, ◌++◌, map}
use native.Mathlib.Omega.{arith}
use remote_pi.Base.Tests.{if◌then◌else◌, Bool-cases}
use remote_pi.Base.Lists.{length, All, filter, drop}

module _ {ℓ} {A : Type ℓ} where
  module _ (before : A → A → Bool) where
    unfoldable pub insert_by : A → List A → List A
    insert_by x [] = x ∷ []
    insert_by x (y ∷ ys) = let rest = insert_by x ys in if before x y then x ∷ y ∷ ys else y ∷ rest

    -- `before x y` is `compare(x, y) <= 0`.
    unfoldable pub sort_by : List A → List A
    unfolding insert_by
    sort_by [] = []
    sort_by (x ∷ xs) = insert_by x (sort_by xs)

  abbrev pub sum_by : (A → ℕ) → List A → ℕ
  sum_by f [] = 0
  sum_by f (x ∷ xs) = f x + sum_by f xs

  abbrev pub flat_map {κ} : {B : Type κ} → (A → List B) → List A → List B
  flat_map f [] = []
  flat_map f (x ∷ xs) = f x ++ flat_map f xs

  pub All-insert_by {κ} :
      (before : A → A → Bool) (P : A → Type κ) (x : A) (xs : List A)
      → P x
      → All P xs
      → All P (insert_by before x xs)
  unfolding insert_by
  All-insert_by before P x [] px h = (px, h)
  All-insert_by before P x (y ∷ ys) px h = elim (Bool-cases (before x y)) [
    | inl first ↦ rw first (px, h)
    | inr later ↦ rw later (h.0, All-insert_by before P x ys px h.1)
  ]

  pub All-sort_by {κ} :
      (before : A → A → Bool) (P : A → Type κ) (xs : List A) → All P xs → All P (sort_by before xs)
  unfolding sort_by
  All-sort_by before P [] h = h
  All-sort_by before P (x ∷ xs) h =
      All-insert_by before P x (sort_by before xs) h.0 (All-sort_by before P xs h.1)

  pub length-insert_by :
      (before : A → A → Bool) (x : A) (xs : List A) → length (insert_by before x xs) ≡ length xs + 1
  unfolding insert_by
  length-insert_by before x [] = omega arith
  length-insert_by before x (y ∷ ys) = ground (arith, length-insert_by before x ys)

  pub length-sort_by :
      (before : A → A → Bool) (xs : List A) → length (sort_by before xs) ≡ length xs
  unfolding sort_by
  length-sort_by before [] = omega arith
  length-sort_by before (x ∷ xs) =
      omega (arith, length-insert_by before x (sort_by before xs), length-sort_by before xs)

  pub All-filter_by {κ} :
      (P : A → Type κ) (p : A → Bool) (xs : List A) → All P xs → All P (filter p xs)
  All-filter_by P p [] h = h
  All-filter_by P p (x ∷ xs) h = elim (Bool-cases (p x)) [
    | inl kept ↦ rw kept (h.0, All-filter_by P p xs h.1)
    | inr dropped ↦ rw dropped (All-filter_by P p xs h.1)
  ]

  pub sum_by-insert_by :
      (before : A → A → Bool) (f : A → ℕ) (x : A) (xs : List A)
      → sum_by f (insert_by before x xs) ≡ f x + sum_by f xs
  unfolding insert_by
  sum_by-insert_by before f x [] = refl
  sum_by-insert_by before f x (y ∷ ys) = ground (arith, sum_by-insert_by before f x ys)

  pub sum_by-sort_by :
      (before : A → A → Bool) (f : A → ℕ) (xs : List A) → sum_by f (sort_by before xs) ≡ sum_by f xs
  unfolding sort_by
  sum_by-sort_by before f [] = refl
  sum_by-sort_by before f (x ∷ xs) =
      omega (arith, sum_by-insert_by before f x (sort_by before xs), sum_by-sort_by before f xs)

  pub All-drop {κ} : (P : A → Type κ) (n : ℕ) (xs : List A) → All P xs → All P (drop n xs)
  unfolding drop
  All-drop P zero xs h = h
  All-drop P (suc n) [] h = h
  All-drop P (suc n) (x ∷ xs) h = All-drop P n xs h.1

  -- What is left by `filter` passes the test.
  pub All-passed : (p : A → Bool) (xs : List A) → All (λ x. p x ≡ true) (filter p xs)
  All-passed p [] = tt
  All-passed p (x ∷ xs) = elim (Bool-cases (p x)) [
    | inl kept ↦ rw kept (kept, All-passed p xs)
    | inr dropped ↦ rw dropped (All-passed p xs)
  ]

  pub All-weaken {κ} :
      (P Q : A → Type κ) (xs : List A) → ((x : A) → P x → Q x) → All P xs → All Q xs
  All-weaken P Q [] f h = tt
  All-weaken P Q (x ∷ xs) f h = (f x h.0, All-weaken P Q xs f h.1)

module _ {ℓ κ} {A : Type ℓ} {B : Type κ} where
  pub length-map : (f : A → B) (xs : List A) → length (map f xs) ≡ length xs
  length-map f [] = refl
  length-map f (x ∷ xs) = omega (arith, length-map f xs)

  pub All-map {μ ν} :
      (P : A → Type μ) (Q : B → Type ν) (f : A → B) (xs : List A)
      → ((x : A) → P x → Q (f x))
      → All P xs
      → All Q (map f xs)
  All-map P Q f [] h all = tt
  All-map P Q f (x ∷ xs) h all = (h x all.0, All-map P Q f xs h all.1)
