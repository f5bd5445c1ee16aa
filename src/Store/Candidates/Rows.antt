-- ===== src/Store/Candidates/Rows.antt =====
-- The rows of a container and a scope, after a change of the table.
use doupro.Base.{
  true, false, ◌≡◌, ◌≢◌, refl, ◌∙◌, ap, subst, ◌⊎◌, inl, inr, none, some, List, [], ◌∷◌, Text,
  text_eq, text_eq_iff, text_eq_refl, if◌then◌else◌, arith, All, Bool-cases,
}
use doupro.Store.Time.{Time}
use doupro.Store.Candidates.{
  UpdateCandidate, Candidates, is_row, get_update_candidate, delete_candidate, detected,
  upsert_candidate, upsert_all, wanted, drop_unwanted,
}

is_row_same :
    (id scope : Text) (c : UpdateCandidate)
    → is_row id scope c ≡ true
    → (c.container_id ≡ id) × (c.scope ≡ scope)
is_row_same id scope c h = ground (arith, text_eq_iff c.container_id id, text_eq_iff c.scope scope)

get-delete_same :
    (id scope : Text) (t : Candidates)
    → get_update_candidate id scope (delete_candidate id scope t) ≡ none
unfolding get_update_candidate
get-delete_same id scope [] = refl
get-delete_same id scope (c ∷ t) = elim (Bool-cases (is_row id scope c)) [
  | inl h ↦ ground (arith, get-delete_same id scope t)
  | inr h ↦ ground (arith, get-delete_same id scope t)
]

-- A row of one key is not one of another.
other_row :
    (id scope j k : Text) (c : UpdateCandidate)
    → (j ≢ id) ⊎ (k ≢ scope)
    → is_row j k c ≡ true
    → is_row id scope c ≡ false
other_row id scope j k c ne h =
    ground (arith, text_eq_iff c.container_id id, text_eq_iff c.scope scope, is_row_same j k c h)

get-delete_other :
    (id scope j k : Text) (t : Candidates)
    → (j ≢ id) ⊎ (k ≢ scope)
    → get_update_candidate id scope (delete_candidate j k t) ≡ get_update_candidate id scope t
unfolding get_update_candidate
get-delete_other id scope j k [] ne = refl
get-delete_other id scope j k (c ∷ t) ne = elim (Bool-cases (is_row j k c)) [
  | inl h ↦ rw h (rw (other_row id scope j k c ne h) (get-delete_other id scope j k t ne))
  | inr h ↦
      rw h (ap (λ r. if is_row id scope c then some c else r) (get-delete_other id scope j k t ne))
]

-- The row has this image, and was detected then.
abbrev pub IsDetected : Text → Text → Text → Time → Candidates → Type 0
IsDetected id scope image at t =
    (c : UpdateCandidate) × (get_update_candidate id scope t ≡ some c)
    × (c.image ≡ image)
    × (c.detected_at ≡ at)

-- The candidates have one of this scope, and no other image for it.
abbrev pub Offers : Text → Text → List UpdateCandidate → Type 0
Offers scope image cs = (wanted scope cs ≡ true) × All (λ c. c.scope ≡ scope → c.image ≡ image) cs

get-upsert :
    (id scope : Text) (now : Time) (c : UpdateCandidate) (t : Candidates)
    → c.scope ≡ scope
    → IsDetected id scope c.image
        (detected c.image now (get_update_candidate id scope t))
        (upsert_candidate id now c t)
unfolding upsert_candidate get_update_candidate
get-upsert id scope now c t e =
    let at = detected c.image now (get_update_candidate id c.scope t) in
    (
      record c { container_id = id; detected_at = at },
      rw (text_eq_refl id) (rw ((text_eq_iff c.scope scope).1 e) refl),
      refl,
      ap (λ s. detected c.image now (get_update_candidate id s t)) e,
    )

pub get-upsert_other :
    (id scope j : Text) (now : Time) (c : UpdateCandidate) (t : Candidates)
    → (j ≢ id) ⊎ (c.scope ≢ scope)
    → get_update_candidate id scope (upsert_candidate j now c t) ≡ get_update_candidate id scope t
unfolding upsert_candidate get_update_candidate
get-upsert_other id scope j now c t ne =
    let r = record c {
      container_id = j;
      detected_at = detected c.image now (get_update_candidate j c.scope t);
    } in
    rw (other_row id scope j c.scope r ne (rw (text_eq_refl j) (text_eq_refl c.scope)))
      (get-delete_other id scope j c.scope t ne)

-- A table with the same row has it detected at the same time.
pub IsDetected-same :
    (id scope image : Text) (at : Time) (t u : Candidates)
    → get_update_candidate id scope u ≡ get_update_candidate id scope t
    → IsDetected id scope image at t
    → IsDetected id scope image at u
IsDetected-same id scope image at t u e (c, got, same, at_) = (c, e ∙ got, same, at_)

pub detected_again :
    (id scope image : Text) (at now : Time) (t : Candidates)
    → IsDetected id scope image at t
    → detected image now (get_update_candidate id scope t) ≡ at
detected_again id scope image at now t (c, got, same, at_) =
    rw got (rw ((text_eq_iff c.image image).1 same) at_)

upsert_all-IsDetected :
    (id scope image : Text) (at now : Time) (cs : List UpdateCandidate) (t : Candidates)
    → All (λ c. c.scope ≡ scope → c.image ≡ image) cs
    → IsDetected id scope image at t
    → IsDetected id scope image at (upsert_all id now cs t)
upsert_all-IsDetected id scope image at now [] t h d = d
upsert_all-IsDetected id scope image at now (c ∷ cs) t (p, h) d =
    upsert_all-IsDetected id scope image at now cs (upsert_candidate id now c t) h
      (upsert-IsDetected id scope image at now c t p d)
  where
    upsert-IsDetected :
        (id scope image : Text) (at now : Time) (c : UpdateCandidate) (t : Candidates)
        → (c.scope ≡ scope → c.image ≡ image)
        → IsDetected id scope image at t
        → IsDetected id scope image at (upsert_candidate id now c t)
    upsert-IsDetected id scope image at now c t p d = elim (Bool-cases (text_eq c.scope scope)) [
      | inl e ↦
          let e' = (text_eq_iff c.scope scope).0 e in
          let (r, got, same, at_) = get-upsert id scope now c t e' in
          (
            r,
            got,
            same ∙ p e',
            at_
                ∙ ap (λ i. detected i now (get_update_candidate id scope t)) (p e')
                ∙ detected_again id scope image at now t d,
          )
      | inr ne ↦
          IsDetected-same id scope image at t (upsert_candidate id now c t)
            (get-upsert_other id scope id now c t
              (inr (λ e. ground (arith, text_eq_iff c.scope scope))))
            d
    ]

pub upsert_all-detects :
    (id scope image : Text) (now : Time) (cs : List UpdateCandidate) (t : Candidates)
    → Offers scope image cs
    → IsDetected id scope image
        (detected image now (get_update_candidate id scope t))
        (upsert_all id now cs t)
upsert_all-detects id scope image now [] t (w, h) = absurd (ground arith)
upsert_all-detects id scope image now (c ∷ cs) t (w, (p, h)) =
    elim (Bool-cases (text_eq c.scope scope)) [
      | inl e ↦
          let e' = (text_eq_iff c.scope scope).0 e in
          let (r, got, same, at_) = get-upsert id scope now c t e' in
          upsert_all-IsDetected id scope image
            (detected image now (get_update_candidate id scope t)) now cs
            (upsert_candidate id now c t) h
            (
              r,
              got,
              same ∙ p e',
              at_ ∙ ap (λ i. detected i now (get_update_candidate id scope t)) (p e'),
            )
      | inr ne ↦
          subst
            (λ o.
              IsDetected id scope image (detected image now o)
                (upsert_all id now cs (upsert_candidate id now c t)))
            (get-upsert_other id scope id now c t
              (inr (λ e. ground (arith, text_eq_iff c.scope scope))))
            (upsert_all-detects id scope image now cs (upsert_candidate id now c t)
              (ground arith, h))
    ]

pub drop_unwanted_same :
    (id scope j : Text) (cs : List UpdateCandidate) (scopes : List Text) (t : Candidates)
    → (j ≢ id) ⊎ (wanted scope cs ≡ true)
    → get_update_candidate id scope (drop_unwanted j cs scopes t) ≡ get_update_candidate id scope t
drop_unwanted_same id scope j cs [] t ne = refl
drop_unwanted_same id scope j cs (s ∷ scopes) t ne =
    drop_unwanted_same id scope j cs scopes (if wanted s cs then t else delete_candidate j s t) ne
    ∙ (elim (Bool-cases (wanted s cs)) [
      | inl w ↦ rw w refl
      | inr u ↦ rw u (get-delete_other id scope j s t (differs cs ne u))
    ])
  where
    differs :
        {id scope j s : Text} (cs : List UpdateCandidate)
        → (j ≢ id) ⊎ (wanted scope cs ≡ true)
        → wanted s cs ≡ false
        → (j ≢ id) ⊎ (s ≢ scope)
    differs cs (inl ne) u = inl ne
    differs cs (inr w) u = inr (λ e. ground (arith, ap (λ k. wanted k cs) e))
