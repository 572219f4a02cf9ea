-- ===== src/Base/Equality.antt =====
-- `===` on the values that serve as keys.
use Prim.Native.Nat.{ℕ, compare, Ordering}
use Prim.Native.String.{String}
use mathlib.Core.Path.{◌≡◌, refl, ap}
use mathlib.Core.Logic.{◌↔◌}
use mathlib.Core.Bool.{Bool, true, false}
use mathlib.Core.Option.{Option, none, some}
use native.Mathlib.Omega.{arith}
use text.Mathlib.Text.{◌==◌ as str_eq}
use text.Mathlib.TextEquality.{eq_iff}

-- A type whose values are compared by a Boolean test.
pub record Keyed {ℓ} (K : Type ℓ) : Type ℓ where
  pub same : K → K → Bool
  pub same_iff : (j k : K) → (same j k ≡ true) ↔ (j ≡ k)

module _ {ℓ} {K : Type ℓ} ⦃e : Keyed K⦄ where
  infix 50 ◌==◌
  abbrev pub ◌==◌ : K → K → Bool
  j == k = e.same j k

  -- A value equals itself.
  pub ==_self : (k : K) → (k == k) ≡ true
  ==_self k = (e.same_iff k k).1 refl

instance abbrev pub string_eq : Keyed String
string_eq = record { same = str_eq; same_iff = eq_iff }

abbrev nat_same : ℕ → ℕ → Bool
nat_same m n = elim (compare m n) [ Ordering.eq ↦ true | _ ↦ false ]

pub nat_same_iff : (m n : ℕ) → (nat_same m n ≡ true) ↔ (m ≡ n)
nat_same_iff m n = (λ h. ground arith, λ h. ground arith)

instance abbrev pub nat_eq : Keyed ℕ
nat_eq = record { same = nat_same; same_iff = nat_same_iff }

module _ {ℓ} {K : Type ℓ} ⦃e : Keyed K⦄ where
  abbrev option_same : Option K → Option K → Bool
  option_same none none = true
  option_same (some j) (some k) = j == k
  option_same _ _ = false

  pub option_same_iff : (j k : Option K) → (option_same j k ≡ true) ↔ (j ≡ k)
  option_same_iff none none = (λ h. refl, λ h. refl)
  option_same_iff none (some k) = (λ h. absurd (ground arith), λ h. absurd (ground arith))
  option_same_iff (some j) none = (λ h. absurd (ground arith), λ h. absurd (ground arith))
  option_same_iff (some j) (some k) =
      (λ h. ap some ((e.same_iff j k).0 h), λ h. ground (arith, e.same_iff j k))

  instance abbrev pub option_eq : Keyed (Option K)
  option_eq = record { same = option_same; same_iff = option_same_iff }
