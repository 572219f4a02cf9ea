-- ===== src/Base/JsMap.antt =====
-- JavaScript's `Map`: the entries in the order of insertion. `set` of a key that is present keeps
-- its place, and `delete` followed by `set` moves the key to the end.
pub mod Deleting
pub mod Unique
pub mod Totals
use Prim.Native.Nat.{◌+◌, ◌≤◌}
use mathlib.Core.Path.{◌≡◌, refl}
use mathlib.Core.Bool.{Bool, true, false}
use mathlib.Core.Option.{Option, none, some}
use mathlib.Core.List.{List, [], ◌∷◌, ◌++◌, map}
use native.Mathlib.Omega.{arith}
use remote_pi.Base.Tests.{if◌then◌else◌, is_some}
use remote_pi.Base.Lists.{length, All}
use remote_pi.Base.Equality.{Keyed, ◌==◌}

abbrev pub JsMap {ℓ κ} : Type ℓ → Type κ → Type (ℓ ⊔ κ)
JsMap K V = List (K × V)

module _ {ℓ κ} {K : Type ℓ} {V : Type κ} where
  abbrev pub values : JsMap K V → List V
  values m = map (λ e. e.1) m

  abbrev pub keys : JsMap K V → List K
  keys m = map (λ e. e.0) m

module _ {ℓ κ} {K : Type ℓ} {V : Type κ} ⦃e : Keyed K⦄ where
  unfoldable pub get : JsMap K V → K → Option V
  get [] k = none
  get ((j, v) ∷ m) k = if j == k then some v else get m k

  unfoldable pub set : JsMap K V → K → V → JsMap K V
  set [] k v = (k, v) ∷ []
  set ((j, w) ∷ m) k v = let rest = set m k v in if j == k then (k, v) ∷ m else (j, w) ∷ rest

  unfoldable pub delete : JsMap K V → K → JsMap K V
  delete [] k = []
  delete ((j, v) ∷ m) k = let rest = delete m k in if j == k then rest else (j, v) ∷ rest

  abbrev pub has : JsMap K V → K → Bool
  has m k = is_some (get m k)

  pub get-set :
      (m : JsMap K V) (k j : K) (v : V) → get (set m k v) j ≡ (if k == j then some v else get m j)
  unfolding get set
  get-set [] k j v = refl
  get-set ((i, w) ∷ m) k j v =
      ground (arith, get-set m k j v, e.same_iff k j, e.same_iff i k, e.same_iff i j)

  pub get-delete :
      (m : JsMap K V) (k j : K) → get (delete m k) j ≡ (if k == j then none else get m j)
  unfolding get delete
  get-delete [] k j = ground arith
  get-delete ((i, w) ∷ m) k j =
      ground (arith, get-delete m k j, e.same_iff k j, e.same_iff i k, e.same_iff i j)

  pub get-append :
      (m : JsMap K V) (k j : K) (v : V)
      → get m k ≡ none
      → get (m ++ (k, v) ∷ []) j ≡ (if k == j then some v else get m j)
  unfolding get
  get-append [] k j v h = refl
  get-append ((i, w) ∷ m) k j v h =
      ground (arith, get-append m k j v, e.same_iff k j, e.same_iff i k, e.same_iff i j)

  -- A key that is absent is written at the end.
  pub set-append : (m : JsMap K V) (k : K) (v : V) → get m k ≡ none → set m k v ≡ m ++ (k, v) ∷ []
  unfolding get set
  set-append [] k v h = refl
  set-append ((i, w) ∷ m) k v h = ground (arith, set-append m k v)

  pub length-delete-le : (m : JsMap K V) (k : K) → length (delete m k) ≤ length m
  unfolding delete
  length-delete-le [] k = omega arith
  length-delete-le ((j, v) ∷ m) k = ground (arith, length-delete-le m k)

  pub length-delete_found :
      (m : JsMap K V) (k : K) (v : V) → get m k ≡ some v → length (delete m k) + 1 ≤ length m
  unfolding get delete
  length-delete_found [] k v h = absurd (ground arith)
  length-delete_found ((j, w) ∷ m) k v h =
      ground (arith, length-delete_found m k v, length-delete-le m k)

  -- A write adds one entry at most, and none where the key is present.
  pub length-set :
      (m : JsMap K V) (k : K) (v : V)
      → length (set m k v) ≡ (if has m k then length m else length m + 1)
  unfolding get set
  length-set [] k v = omega arith
  length-set ((j, w) ∷ m) k v = ground (arith, length-set m k v)

  module _ {μ} (P : K × V → Type μ) where
    pub All-delete : (m : JsMap K V) (k : K) → All P m → All P (delete m k)
    unfolding delete
    All-delete [] k h = tt
    All-delete ((j, v) ∷ m) k h =
        elim (j == k) as (λ b. All P (if b then delete m k else (j, v) ∷ delete m k)) [
          | true ↦ All-delete m k h.1
          | false ↦ (h.0, All-delete m k h.1)
        ]

    pub All-set : (m : JsMap K V) (k : K) (v : V) → P (k, v) → All P m → All P (set m k v)
    unfolding set
    All-set [] k v p h = (p, tt)
    All-set ((j, w) ∷ m) k v p h =
        elim (j == k) as (λ b. All P (if b then (k, v) ∷ m else (j, w) ∷ set m k v)) [
          | true ↦ (p, h.1)
          | false ↦ (h.0, All-set m k v p h.1)
        ]
