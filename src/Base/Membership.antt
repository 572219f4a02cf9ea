-- ===== src/Base/Membership.antt =====
-- Items of a list.
use mathlib.Core.Path.{◌≡◌, sym, ap, ◌∙◌}
use mathlib.Core.List.{List, ◌∷◌, ◌++◌, append_assoc}

-- The item is in the list.
abbrev pub In {ℓ} : {A : Type ℓ} → A → List A → Type ℓ
In {A} x xs = (before : List A) × (after : List A) × (before ++ x ∷ after ≡ xs)

pub In-left {ℓ} : {A : Type ℓ} (x : A) (xs ys : List A) → In x xs → In x (xs ++ ys)
In-left x xs ys (before, after, e) =
    (before, after ++ ys, sym (append_assoc before (x ∷ after) ys) ∙ ap (λ l. l ++ ys) e)

pub In-right {ℓ} : {A : Type ℓ} (x : A) (xs ys : List A) → In x ys → In x (xs ++ ys)
In-right x xs ys (before, after, e) =
    (xs ++ before, after, append_assoc xs before (x ∷ after) ∙ ap (λ l. xs ++ l) e)
