-- ===== src/Base/JsMap/Deleting.antt =====
-- A loop over a map that deletes the entry it is at from the map, where a test says so.
use mathlib.Core.Path.{◌≡◌, refl, ◌∙◌, subst}
use mathlib.Core.Logic.{inl, inr}
use mathlib.Core.Bool.{Bool, false, not, ◌&&◌}
use mathlib.Core.Option.{Option, none, some}
use mathlib.Core.List.{[], ◌∷◌}
use Prim.Native.Nat.{◌≤◌}
use native.Mathlib.Omega.{arith}
use remote_pi.Base.Tests.{if◌then◌else◌, Bool-cases}
use remote_pi.Base.Lists.{All, any, length}
use remote_pi.Base.Equality.{Keyed, ◌==◌}
use remote_pi.Base.JsMap.{JsMap, get, delete, get-delete, length-delete-le, All-delete}
use remote_pi.Base.JsMap.Unique.{UniqueKeys, UniqueKeys-delete, keep_if}

abbrev hit {κ} : {V : Type κ} → (V → Bool) → Option V → Bool
hit goes none = false
hit goes (some v) = goes v

module _ {ℓ κ} {K : Type ℓ} {V : Type κ} ⦃e : Keyed K⦄ where
  -- `entries` are still to be visited. A deletion is of the entry visited, so none of them is skipped.
  unfoldable pub delete_visited : (V → Bool) → JsMap K V → JsMap K V → JsMap K V
  delete_visited goes [] m = m
  delete_visited goes ((k, v) ∷ entries) m =
      delete_visited goes entries (if goes v then delete m k else m)

  -- The loop over all of a map.
  abbrev pub delete_where : (V → Bool) → JsMap K V → JsMap K V
  delete_where goes m = delete_visited goes m m

  pub UniqueKeys-delete_visited :
      (goes : V → Bool) (entries m : JsMap K V)
      → UniqueKeys m
      → UniqueKeys (delete_visited goes entries m)
  unfolding delete_visited
  UniqueKeys-delete_visited goes [] m h = h
  UniqueKeys-delete_visited goes ((k, v) ∷ entries) m h = elim (Bool-cases (goes v)) [
    | inl gone ↦ rw gone (UniqueKeys-delete_visited goes entries _ (UniqueKeys-delete m k h))
    | inr kept ↦ rw kept (UniqueKeys-delete_visited goes entries m h)
  ]

  pub All-delete_visited {μ} :
      (P : K × V → Type μ) (goes : V → Bool) (entries m : JsMap K V)
      → All P m
      → All P (delete_visited goes entries m)
  unfolding delete_visited
  All-delete_visited P goes [] m h = h
  All-delete_visited P goes ((k, v) ∷ entries) m h = elim (Bool-cases (goes v)) [
    | inl gone ↦ rw gone (All-delete_visited P goes entries _ (All-delete P m k h))
    | inr kept ↦ rw kept (All-delete_visited P goes entries m h)
  ]

  pub length-delete_visited :
      (goes : V → Bool) (entries m : JsMap K V) → length (delete_visited goes entries m) ≤ length m
  unfolding delete_visited
  length-delete_visited goes [] m = omega arith
  length-delete_visited goes ((k, v) ∷ entries) m = ground (
    arith,
    length-delete_visited goes entries (delete m k),
    length-delete_visited goes entries m,
    length-delete-le m k,
  )

  -- Some entry of the key passes the test.
  abbrev hits : (V → Bool) → K → JsMap K V → Bool
  hits goes j entries = any (λ (x : K × V). x.0 == j && goes x.1) entries

  get-delete_visited :
      (goes : V → Bool) (entries m : JsMap K V) (j : K)
      → get (delete_visited goes entries m) j ≡ (if hits goes j entries then none else get m j)
  unfolding delete_visited
  get-delete_visited goes [] m j = refl
  get-delete_visited goes ((k, v) ∷ entries) m j = ground (
    arith,
    get-delete_visited goes entries (delete m k) j,
    get-delete_visited goes entries m j,
    get-delete m k j,
  )

  hits-get :
      (goes : V → Bool) (j : K) (m : JsMap K V) → UniqueKeys m → hits goes j m ≡ hit goes (get m j)
  unfolding get
  hits-get goes j [] h = refl
  hits-get goes j ((k, v) ∷ m) h = elim (Bool-cases (k == j)) [
    | inl same ↦
        rw same
          let absent = subst (λ i. get m i ≡ none) ((e.same_iff k j).0 same) h.0 in
            let rest = hits-get goes j m h.1 in ground (arith, absent, rest)
    | inr other ↦ rw other (hits-get goes j m h.1)
  ]

  -- A read after the loop, where no key stands twice.
  pub get-delete_where :
      (goes : V → Bool) (m : JsMap K V) (j : K)
      → UniqueKeys m
      → get (delete_where goes m) j ≡ keep_if (λ (x : K × V). not (goes x.1)) j (get m j)
  get-delete_where goes m j h =
      get-delete_visited goes m m j ∙ (rw (hits-get goes j m h) (kept (get m j)))
    where
      kept :
          (o : Option V)
          → (if hit goes o then none else o) ≡ keep_if (λ (x : K × V). not (goes x.1)) j o
      kept none = refl
      kept (some v) = ground arith
