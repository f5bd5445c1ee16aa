-- ===== src/Web/Csv/Laws.antt =====
-- Splitting what was joined, and trimming twice.
use doupro.Base.{
  ℕ, ◌≡◌, ◌≢◌, refl, ap, ◌∙◌, false, List, [], ◌∷◌, ◌++◌, arith, Text, All, Bool-cases, inl, inr,
}
use doupro.Web.Csv.{push_head, split, join, is_space, is_empty, trim_start, trim_end, trim, trimmed}

abbrev pub NoComma : Text → Type 0
NoComma s = All (λ c. c ≢ b',') s

-- A name that survives being stored in the comma-separated field.
pub record IsClean (s : Text) : Type 0 where
  pub no_comma : NoComma s
  pub trimmed_already : trim s ≡ s
  pub full : is_empty s ≡ false

abbrev AllNoComma : List Text → Type 0
AllNoComma xs = All NoComma xs

push_head-NoComma :
    (c : ℕ) (xs : List Text) → c ≢ b',' → AllNoComma xs → AllNoComma (push_head c xs)
push_head-NoComma c [] p h = ((p, tt), tt)
push_head-NoComma c (x ∷ xs) p (h, hs) = ((p, h), hs)

-- No part of a split text holds the separator.
pub split-NoComma : (s : Text) → All NoComma (split b',' s)
unfolding split
split-NoComma [] = (tt, tt)
split-NoComma (c ∷ s) = ground (arith, split-NoComma s, push_head-NoComma c (split b',' s))

split_of_NoComma : (x : Text) → NoComma x → split b',' x ≡ x ∷ []
unfolding split
split_of_NoComma [] h = refl
split_of_NoComma (c ∷ x) (p, h) = ground (arith, split_of_NoComma x h)

split-append_comma :
    (x rest : Text) → NoComma x → split b',' (x ++ (b',' ∷ rest)) ≡ x ∷ split b',' rest
unfolding split
split-append_comma [] rest h = refl
split-append_comma (c ∷ x) rest (p, h) = ground (arith, split-append_comma x rest h)

-- Splitting undoes joining, if no part holds the separator.
pub split-join :
    (x : Text) (xs : List Text) → All NoComma (x ∷ xs) → split b',' (join b',' (x ∷ xs)) ≡ x ∷ xs
unfolding join
split-join x [] (h, _) = split_of_NoComma x h
split-join x (y ∷ ys) (h, hs) = split-append_comma x _ h ∙ ap (◌∷◌ x) (split-join y ys hs)

trim_start-NoComma : (s : Text) → NoComma s → NoComma (trim_start s)
unfolding trim_start
trim_start-NoComma [] h = tt
trim_start-NoComma (c ∷ s) h = ground (arith, trim_start-NoComma s h.1)

trim_end-NoComma : (s : Text) → NoComma s → NoComma (trim_end s)
unfolding trim_end
trim_end-NoComma [] h = tt
trim_end-NoComma (c ∷ s) h = ground (arith, trim_end-NoComma s h.1)

pub trim-NoComma : (s : Text) → NoComma s → NoComma (trim s)
unfolding trim
trim-NoComma s h = trim_end-NoComma _ (trim_start-NoComma s h)

-- The text does not begin with a space.
abbrev StartsFull : Text → Type 0
StartsFull [] = Unit
StartsFull (c ∷ s) = is_space c ≡ false

trim_start-StartsFull : (s : Text) → StartsFull (trim_start s)
unfolding trim_start
trim_start-StartsFull [] = tt
trim_start-StartsFull (c ∷ s) = elim (Bool-cases (is_space c)) [
  | inl e ↦ rw e (trim_start-StartsFull s)
  | inr e ↦ rw e e
]

trim_start_of_StartsFull : (s : Text) → StartsFull s → trim_start s ≡ s
unfolding trim_start
trim_start_of_StartsFull [] h = refl
trim_start_of_StartsFull (c ∷ s) h = rw h

trim_end-StartsFull : (s : Text) → StartsFull s → StartsFull (trim_end s)
unfolding trim_end
trim_end-StartsFull [] h = tt
trim_end-StartsFull (c ∷ s) h = ground arith

trim_end_idem : (s : Text) → trim_end (trim_end s) ≡ trim_end s
unfolding trim_end
trim_end_idem [] = refl
trim_end_idem (c ∷ s) = ground (arith, trim_end_idem s)

-- Trimming twice is trimming once.
pub trim_idem : (s : Text) → trim (trim s) ≡ trim s
unfolding trim
trim_idem s =
    ap trim_end (trim_start_of_StartsFull _ (trim_end-StartsFull _ (trim_start-StartsFull s)))
    ∙ trim_end_idem (trim_start s)

-- What is left of the parts after trimming and dropping the empty ones is clean.
pub trimmed-IsClean : (xs : List Text) → All NoComma xs → All IsClean (trimmed xs)
trimmed-IsClean [] h = tt
trimmed-IsClean (x ∷ xs) (p, h) = elim (Bool-cases (is_empty (trim x))) [
  | inl e ↦ rw e (trimmed-IsClean xs h)
  | inr e ↦ rw e (
    record { no_comma = trim-NoComma x p; trimmed_already = trim_idem x; full = e },
    trimmed-IsClean xs h,
  )
]

-- Clean parts are left as they are.
pub trimmed_of_IsClean : (xs : List Text) → All IsClean xs → trimmed xs ≡ xs
trimmed_of_IsClean [] h = refl
trimmed_of_IsClean (x ∷ xs) (p, h) = rw (p.trimmed_already, p.full, trimmed_of_IsClean xs h)

All-NoComma_of_IsClean : (xs : List Text) → All IsClean xs → All NoComma xs
All-NoComma_of_IsClean [] h = tt
All-NoComma_of_IsClean (x ∷ xs) (p, h) = (p.no_comma, All-NoComma_of_IsClean xs h)

trimmed_blank : trimmed ([] ∷ []) ≡ []
unfolding trim trim_start trim_end
trimmed_blank = refl

-- A list of clean names is read back from the field as it was written.
pub trimmed-split-join :
    (xs : List Text) → All IsClean xs → trimmed (split b',' (join b',' xs)) ≡ xs
unfolding join split
trimmed-split-join [] h = trimmed_blank
trimmed-split-join (x ∷ xs) h =
    ap trimmed (split-join x xs (All-NoComma_of_IsClean (x ∷ xs) h)) ∙ trimmed_of_IsClean (x ∷ xs) h
