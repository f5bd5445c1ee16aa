-- ===== src/Store/Candidates/Detected.antt =====
-- When a candidate was detected, over the calls that change the table.
use doupro.Base.{
  ◌≡◌, ◌≢◌, refl, sym, ◌∙◌, subst, ◌⊎◌, inl, inr, List, [], ◌∷◌, Text, text_eq, text_eq_iff, arith,
  All, Bool-cases,
}
use doupro.Store.Time.{Time}
use doupro.Store.Candidates.{
  UpdateCandidate, Candidates, get_update_candidate, detected, upsert_candidate, upsert_all,
  drop_unwanted, all_scopes, replace_update_candidates, clear_update_candidates,
}
use doupro.Store.Candidates.Rows.{
  IsDetected, Offers, get-upsert_other, IsDetected-same, detected_again, upsert_all-detects,
  drop_unwanted_same,
}

-- The calls that change the table.
pub data TableCall : Type 0 where
  call_replace : Text → List UpdateCandidate → Time → TableCall
  call_clear : Text → TableCall

abbrev table_step : TableCall → Candidates → Candidates
table_step (call_replace id cs now) t = replace_update_candidates id cs now t
table_step (call_clear id) t = clear_update_candidates id t

abbrev pub table_run : List TableCall → Candidates → Candidates
table_run [] t = t
table_run (c ∷ cs) t = table_run cs (table_step c t)

-- The call is about another container, or offers the same image again.
abbrev Retains : Text → Text → Text → TableCall → Type 0
Retains id scope image (call_replace j cs now) = (j ≢ id) ⊎ Offers scope image cs
Retains id scope image (call_clear j) = j ≢ id

upsert_all-other :
    (id scope j : Text) (now : Time) (cs : List UpdateCandidate) (t : Candidates)
    → j ≢ id
    → get_update_candidate id scope (upsert_all j now cs t) ≡ get_update_candidate id scope t
upsert_all-other id scope j now [] t ne = refl
upsert_all-other id scope j now (c ∷ cs) t ne =
    upsert_all-other id scope j now cs (upsert_candidate j now c t) ne
    ∙ get-upsert_other id scope j now c t (inl ne)

get-clear_other :
    (id scope j : Text) (t : Candidates)
    → j ≢ id
    → get_update_candidate id scope (clear_update_candidates j t) ≡ get_update_candidate id scope t
unfolding get_update_candidate clear_update_candidates
get-clear_other id scope j [] ne = refl
get-clear_other id scope j (c ∷ t) ne = ground (
  arith,
  get-clear_other id scope j t ne,
  text_eq_iff c.container_id j,
  text_eq_iff c.container_id id,
)

replace-detects :
    (id scope image : Text) (now : Time) (cs : List UpdateCandidate) (t : Candidates)
    → Offers scope image cs
    → IsDetected id scope image
        (detected image now (get_update_candidate id scope t))
        (replace_update_candidates id cs now t)
unfolding replace_update_candidates
replace-detects id scope image now cs t o =
    IsDetected-same id scope image (detected image now (get_update_candidate id scope t))
      (upsert_all id now cs t) (drop_unwanted id cs all_scopes (upsert_all id now cs t))
      (drop_unwanted_same id scope id cs all_scopes (upsert_all id now cs t) (inr o.0))
      (upsert_all-detects id scope image now cs t o)

replace-other :
    (id scope j : Text) (now : Time) (cs : List UpdateCandidate) (t : Candidates)
    → j ≢ id
    → get_update_candidate id scope (replace_update_candidates j cs now t)
      ≡ get_update_candidate id scope t
unfolding replace_update_candidates
replace-other id scope j now cs t ne =
    drop_unwanted_same id scope j cs all_scopes (upsert_all j now cs t) (inl ne)
    ∙ upsert_all-other id scope j now cs t ne

replace_other-IsDetected :
    (id scope image j : Text) (at now : Time) (cs : List UpdateCandidate) (t : Candidates)
    → j ≢ id
    → IsDetected id scope image at t
    → IsDetected id scope image at (replace_update_candidates j cs now t)
replace_other-IsDetected id scope image j at now cs t ne d =
    IsDetected-same id scope image at t (replace_update_candidates j cs now t)
      (replace-other id scope j now cs t ne) d

step-IsDetected :
    (id scope image : Text) (at : Time) (c : TableCall) (t : Candidates)
    → Retains id scope image c
    → IsDetected id scope image at t
    → IsDetected id scope image at (table_step c t)
step-IsDetected id scope image at (call_replace j cs now) t (inl ne) d =
    replace_other-IsDetected id scope image j at now cs t ne d
step-IsDetected id scope image at (call_replace j cs now) t (inr o) d =
    elim (Bool-cases (text_eq j id)) [
      | inl e ↦
          subst (λ k. IsDetected id scope image at (replace_update_candidates k cs now t))
            (sym ((text_eq_iff j id).0 e))
            (subst (λ s. IsDetected id scope image s (replace_update_candidates id cs now t))
              (detected_again id scope image at now t d)
              (replace-detects id scope image now cs t o))
      | inr ne ↦
          replace_other-IsDetected id scope image j at now cs t
            (λ e. ground (arith, text_eq_iff j id)) d
    ]
step-IsDetected id scope image at (call_clear j) t ne d =
    IsDetected-same id scope image at t (clear_update_candidates j t)
      (get-clear_other id scope j t ne) d

run-IsDetected :
    (id scope image : Text) (at : Time) (calls : List TableCall) (t : Candidates)
    → All (Retains id scope image) calls
    → IsDetected id scope image at t
    → IsDetected id scope image at (table_run calls t)
run-IsDetected id scope image at [] t h d = d
run-IsDetected id scope image at (c ∷ cs) t (r, h) d =
    run-IsDetected id scope image at cs (table_step c t) h
      (step-IsDetected id scope image at c t r d)

-- Once a check of a container has offered an image for a scope, the candidate stays on record with the
-- time of that check, or with its earlier time if it had that image already, whatever calls follow, as
-- long as each is about another container or offers the same image for the scope again.
pub table_run-IsDetected :
    (id scope image : Text) (now : Time) (cs : List UpdateCandidate) (calls : List TableCall)
    (t : Candidates)
    → Offers scope image cs
    → All (Retains id scope image) calls
    → IsDetected id scope image
        (detected image now (get_update_candidate id scope t))
        (table_run (call_replace id cs now ∷ calls) t)
table_run-IsDetected id scope image now cs calls t o h =
    run-IsDetected id scope image (detected image now (get_update_candidate id scope t)) calls
      (replace_update_candidates id cs now t) h (replace-detects id scope image now cs t o)
