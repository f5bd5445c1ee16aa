-- ===== src/Registry/Ref/Parts.antt =====
-- Where a reference is cut.
use doupro.Base.{
  false, ◌≡◌, refl, ap, inl, inr, ◌||◌, ◌++◌, none, some, [], ◌∷◌, ℕ, Text, strip_prefix, has_char,
  ◌==◌, arith, Bool-cases, Option-cases,
}
use doupro.Registry.Ref.{split_first, split_last}

pub has-append : (c : ℕ) (s t : Text) → has_char c (s ++ t) ≡ (has_char c s || has_char c t)
has-append c [] t = refl
has-append c (d ∷ s) t = ground (arith, has-append c s t)

pub split_first-none : (c : ℕ) (s : Text) → has_char c s ≡ false → split_first c s ≡ none
split_first-none c [] h = refl
split_first-none c (d ∷ s) h = ground (arith, split_first-none c s)

pub split_first-missing : (c : ℕ) (s : Text) → split_first c s ≡ none → has_char c s ≡ false
split_first-missing c [] h = refl
split_first-missing c (d ∷ s) h = elim (Bool-cases (d == c)) [
  | inl here ↦ absurd (ground arith)
  | inr on ↦ elim (Option-cases (split_first c s)) [
    | inl missing ↦ ground (arith, split_first-missing c s missing)
    | inr (found, e) ↦ absurd (ground arith)
  ]
]

pub split_first-before :
    (c : ℕ) (s a b : Text) → split_first c s ≡ some (a, b) → has_char c a ≡ false
split_first-before c [] a b h = absurd (ground arith)
split_first-before c (d ∷ s) a b h = elim (Bool-cases (d == c)) [
  | inl here ↦ ground arith
  | inr on ↦ elim (Option-cases (split_first c s)) [
    | inl missing ↦ absurd (ground arith)
    | inr ((a', b'), found) ↦ ground (arith, split_first-before c s a' b' found)
  ]
]

pub split_first-at :
    (c : ℕ) (s t : Text) → has_char c s ≡ false → split_first c (s ++ (c ∷ t)) ≡ some (s, t)
split_first-at c [] t h = ground arith
split_first-at c (d ∷ s) t h = ground (arith, split_first-at c s t)

pub split_first-append :
    (c : ℕ) (s t a b : Text)
    → split_first c s ≡ some (a, b)
    → split_first c (s ++ t) ≡ some (a, b ++ t)
split_first-append c [] t a b h = absurd (ground arith)
split_first-append c (d ∷ s) t a b h = elim (Bool-cases (d == c)) [
  | inl here ↦ ground arith
  | inr on ↦ elim (Option-cases (split_first c s)) [
    | inl missing ↦ ground arith
    | inr ((a', b'), found) ↦ ground (arith, split_first-append c s t a' b' found)
  ]
]

split_last-none : (c : ℕ) (s : Text) → has_char c s ≡ false → split_last c s ≡ none
split_last-none c [] h = refl
split_last-none c (d ∷ s) h = ground (arith, split_last-none c s)

pub split_last-at :
    (c : ℕ) (s t : Text) → has_char c t ≡ false → split_last c (s ++ (c ∷ t)) ≡ some (s, t)
split_last-at c [] t h = rw (split_last-none c t h) (ground arith)
split_last-at c (d ∷ s) t h = rw (split_last-at c s t h) refl

strip_prefix-append : (p s : Text) → strip_prefix p (p ++ s) ≡ some s
strip_prefix-append [] s = refl
strip_prefix-append (c ∷ p) s = ground (arith, strip_prefix-append p s)

pub strip_prefix-back : (p s t : Text) → strip_prefix p s ≡ some t → s ≡ p ++ t
strip_prefix-back [] s t h = ground arith
strip_prefix-back (c ∷ p) [] t h = absurd (ground arith)
strip_prefix-back (c ∷ p) (d ∷ s) t h = ground (arith, strip_prefix-back p s t)

pub append_assoc : (a b c : Text) → (a ++ b) ++ c ≡ a ++ (b ++ c)
append_assoc [] b c = refl
append_assoc (x ∷ a) b c = ap (λ s. x ∷ s) (append_assoc a b c)
