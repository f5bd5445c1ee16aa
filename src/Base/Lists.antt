-- ===== src/Base/Lists.antt =====
-- Lists measured and indexed by native numbers, and a predicate on every element.
use Prim.Native.Nat.{ℕ, zero, suc, ◌≤◌}
use mathlib.Core.Path.{◌≡◌, refl, sym, subst}
use mathlib.Core.Logic.{◌⊎◌, inl, inr}
use mathlib.Core.Bool.{Bool}
use mathlib.Core.List.{List, [], ◌∷◌, ◌++◌}
use mathlib.Core.Option.{Option, none, some}
use native.Mathlib.Omega.{arith}
use doupro.Base.Tests.{if◌then◌else◌}

module _ {ℓ} {A : Type ℓ} where
  abbrev pub length : List A → ℕ
  length [] = 0
  length (x ∷ xs) = suc (length xs)

  abbrev pub get_elem? : List A → ℕ → Option A
  get_elem? [] i = none
  get_elem? (x ∷ xs) zero = some x
  get_elem? (x ∷ xs) (suc i) = get_elem? xs i

  abbrev pub take : ℕ → List A → List A
  take zero xs = []
  take (suc n) [] = []
  take (suc n) (x ∷ xs) = x ∷ take n xs

  -- `xs.filter(p)`
  abbrev pub keep : (A → Bool) → List A → List A
  keep p [] = []
  keep p (x ∷ xs) = if p x then x ∷ keep p xs else keep p xs

  pub length-take-le : (n : ℕ) (xs : List A) → length (take n xs) ≤ n
  length-take-le zero xs = omega arith
  length-take-le (suc n) [] = omega arith
  length-take-le (suc n) (x ∷ xs) = omega (arith, length-take-le n xs)

module _ {ℓ κ} {A : Type ℓ} (P : A → Type κ) where
  abbrev pub All : List A → Type κ
  All [] = Unit
  All (x ∷ xs) = P x × All xs

  pub All-append : (xs ys : List A) → All xs → All ys → All (xs ++ ys)
  All-append [] ys h k = k
  All-append (x ∷ xs) ys (p, h) k = (p, All-append xs ys h k)

  pub All-take : (n : ℕ) (xs : List A) → All xs → All (take n xs)
  All-take zero xs h = tt
  All-take (suc n) [] h = tt
  All-take (suc n) (x ∷ xs) (p, h) = (p, All-take n xs h)

-- The elements of a list, as a sum that computes.
abbrev pub IsOneOf : {A : Type 0} → List A → A → Type 0
IsOneOf [] x = ⊥
IsOneOf (y ∷ ys) x = (x ≡ y) ⊎ IsOneOf ys x

pub All-IsOneOf {κ} :
    {A : Type 0} (P : A → Type κ) (xs : List A) (x : A) → All P xs → IsOneOf xs x → P x
All-IsOneOf P [] x h m = absurd m
All-IsOneOf P (y ∷ ys) x (p, h) (inl e) = subst P (sym e) p
All-IsOneOf P (y ∷ ys) x (p, h) (inr m) = All-IsOneOf P ys x h m

pub IsOneOf-self : {A : Type 0} (xs : List A) → All (IsOneOf xs) xs
IsOneOf-self [] = tt
IsOneOf-self (x ∷ xs) = (inl refl, All_widen x xs xs (IsOneOf-self xs))
  where
    All_widen :
        {A : Type 0} (x : A) (xs ys : List A) → All (IsOneOf xs) ys → All (IsOneOf (x ∷ xs)) ys
    All_widen x xs [] h = tt
    All_widen x xs (y ∷ ys) (m, h) = (inr m, All_widen x xs ys h)
