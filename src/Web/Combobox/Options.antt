-- ===== src/Web/Combobox/Options.antt =====
-- What the panel offers: `open` of web/static/combobox.js.
use doupro.Base.{
  ℕ, zero, suc, ◌≤◌, ◌<◌, ◌≡◌, refl, Bool, true, false, List, [], ◌∷◌, arith, Text, text_eq_iff,
  includes, occurs, length, take, keep, length-take-le, All, All-take, Bool-cases, inl, inr,
}
use doupro.Web.Csv.{trim}
use doupro.Web.Combobox.{Config, Combobox, selected, is_offered, show_found, open_panel, is_nil}

module _ (p : Text → Bool) where
  -- A kept text passes the test and is one of the list.
  abbrev Kept : List Text → Text → Type 0
  Kept xs o = (p o ≡ true) × (includes xs o ≡ true)

  All-Kept_cons : (x : Text) (xs ys : List Text) → All (Kept xs) ys → All (Kept (x ∷ xs)) ys
  All-Kept_cons x xs [] h = tt
  All-Kept_cons x xs (y ∷ ys) (k, h) = (ground arith, All-Kept_cons x xs ys h)

  keep-Kept : (xs : List Text) → All (Kept xs) (keep p xs)
  keep-Kept [] = tt
  keep-Kept (x ∷ xs) = elim (Bool-cases (p x)) [
    | inl e ↦ rw e ((e, ground (arith, text_eq_iff x x)), All-Kept_cons x xs _ (keep-Kept xs))
    | inr e ↦ rw e (All-Kept_cons x xs _ (keep-Kept xs))
  ]

  keep-includes :
      (xs : List Text) (o : Text)
      → includes xs o ≡ true
      → p o ≡ true
      → includes (keep p xs) o ≡ true
  keep-includes [] o h e = h
  keep-includes (x ∷ xs) o h e = ground (arith, text_eq_iff x o, keep-includes xs o)

take_of_short : (n : ℕ) (xs : List Text) → length (take n xs) < n → take n xs ≡ xs
take_of_short zero xs h = elim h [ ]
take_of_short (suc n) [] h = refl
take_of_short (suc n) (x ∷ xs) h = ground (arith, take_of_short n xs)

module _ (to_lower_case : Text → Text) (cfg : Config) (options : List Text) (s : Combobox) where
  -- The option is among those given, is not selected yet, and holds the trimmed query, without
  -- regard to case.
  pub record IsOffer (o : Text) : Type 0 where
    pub given : includes options o ≡ true
    pub fresh : includes (selected cfg s) o ≡ false
    pub found : occurs (to_lower_case (trim s.input_value)) (to_lower_case o) ≡ true

  pub record Offers (found : List Text) : Type 0 where
    pub sound : All IsOffer found
    pub bounded : length found ≤ 8
    pub complete : (o : Text) → length found < 8 → IsOffer o → includes found o ≡ true

show_found-current_options :
    (found : List Text) (s : Combobox)
    → ((show_found found s).current_options ≡ found)
      × ((show_found found s).panel_hidden ≡ is_nil found)
unfolding show_found
show_found-current_options found s = ground arith

Kept-IsOffer :
    (to_lower_case : Text → Text) (cfg : Config) (options : List Text) (s : Combobox)
    (os : List Text)
    → All
        (Kept
          (is_offered to_lower_case (selected cfg s) (to_lower_case (trim s.input_value)))
          options)
        os
    → All (IsOffer to_lower_case cfg options s) os
unfolding is_offered
Kept-IsOffer to_lower_case cfg options s [] h = tt
Kept-IsOffer to_lower_case cfg options s (o ∷ os) (k, h) =
    (ground arith, Kept-IsOffer to_lower_case cfg options s os h)

IsOffer-is_offered :
    {to_lower_case : Text → Text} {cfg : Config} {options : List Text} {s : Combobox} {o : Text}
    → IsOffer to_lower_case cfg options s o
    → is_offered to_lower_case (selected cfg s) (to_lower_case (trim s.input_value)) o ≡ true
unfolding is_offered
IsOffer-is_offered k = ground arith

-- After `open` the options offered are among those given, are not selected yet and hold the query;
-- there are eight at most, and where there are fewer, every such option is offered. The panel is
-- hidden exactly if none is.
pub open_panel-Offers :
    (to_lower_case : Text → Text) (cfg : Config) (options : List Text) (s : Combobox)
    → Offers to_lower_case cfg options s (open_panel to_lower_case cfg options s).current_options
      × ((open_panel to_lower_case cfg options s).panel_hidden
          ≡ is_nil (open_panel to_lower_case cfg options s).current_options)
unfolding open_panel
open_panel-Offers to_lower_case cfg options s =
    let test = is_offered to_lower_case (selected cfg s) (to_lower_case (trim s.input_value)) in
    let all = keep test options in
    let (same, hid) = show_found-current_options (take 8 all) s in
    rw same (
      record {
        sound =
            Kept-IsOffer to_lower_case cfg options s (take 8 all)
              (All-take (Kept test options) 8 all (keep-Kept test options));
        bounded = length-take-le 8 all;
        complete = λ o few k.
            rw (take_of_short 8 all few)
              (keep-includes test options o k.given (IsOffer-is_offered k));
      },
      hid,
    )
