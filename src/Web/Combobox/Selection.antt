-- ===== src/Web/Combobox/Selection.antt =====
-- The selection of web/static/combobox.js: what `pick` and the chips' buttons do to the names that
-- are stored, separated by commas, in the hidden field.
use doupro.Base.{
  some, if_both, text_eq, ◌≡◌, refl, ap, ◌∙◌, true, false, List, [], ◌∷◌, ◌++◌, arith, Text,
  text_eq_iff, includes, All, All-append, if◌then◌else◌, Bool-cases, inl, inr,
}
use doupro.Web.Csv.{join}
use doupro.Web.Csv.Laws.{IsClean, split-NoComma, trimmed-IsClean, trimmed-split-join}
use doupro.Web.Combobox.{Config, Combobox, selected, render_chips, pick, without, remove_at}

-- Every selected name is clean: no comma, no space around it, not empty.
pub selected-IsClean : (cfg : Config) (s : Combobox) → All IsClean (selected cfg s)
unfolding selected
selected-IsClean cfg s = elim (Bool-cases cfg.multi) [
  | inl e ↦ rw e (trimmed-IsClean _ (split-NoComma s.hidden_value))
  | inr e ↦ rw e tt
]

-- Writing clean names to the hidden field selects exactly these.
selected-join :
    (cfg : Config) (s : Combobox) (xs : List Text)
    → cfg.multi ≡ true
    → All IsClean xs
    → s.hidden_value ≡ join b',' xs
    → selected cfg s ≡ xs
unfolding selected
selected-join cfg s xs m h e = rw (m, e) (trimmed-split-join xs h)

pick_known :
    (cfg : Config) (o : Text) (s : Combobox)
    → cfg.multi ≡ true
    → includes (selected cfg s) o ≡ true
    → (pick cfg o s).hidden_value ≡ s.hidden_value
unfolding pick
pick_known cfg o s m e = ground arith

pick_new :
    (cfg : Config) (o : Text) (s : Combobox)
    → cfg.multi ≡ true
    → includes (selected cfg s) o ≡ false
    → (pick cfg o s).hidden_value ≡ join b',' (selected cfg s ++ (o ∷ []))
unfolding pick
pick_new cfg o s m e = ground arith

selected_of_same :
    (cfg : Config) (s t : Combobox)
    → s.hidden_value ≡ t.hidden_value
    → selected cfg s ≡ selected cfg t
unfolding selected
selected_of_same cfg s t e = rw e refl

-- In a multi-select, picking a clean name adds it at the end of the selection, unless it is
-- selected already: then the selection stays as it is.
selected-pick :
    (cfg : Config) (o : Text) (s : Combobox)
    → cfg.multi ≡ true
    → IsClean o
    → selected cfg (pick cfg o s)
      ≡ (if includes (selected cfg s) o then selected cfg s else selected cfg s ++ (o ∷ []))
selected-pick cfg o s m c = elim (Bool-cases (includes (selected cfg s) o)) [
  | inl e ↦ rw e (selected_of_same cfg (pick cfg o s) s (pick_known cfg o s m e))
  | inr e ↦ rw e (
      selected-join cfg (pick cfg o s) (selected cfg s ++ (o ∷ [])) m
        (All-append IsClean (selected cfg s) (o ∷ []) (selected-IsClean cfg s) (c, tt))
        (pick_new cfg o s m e))
]

without-IsClean : (o : Text) (xs : List Text) → All IsClean xs → All IsClean (without o xs)
without-IsClean o [] h = tt
without-IsClean o (x ∷ xs) (c, h) =
    if_both (All IsClean) (text_eq x o) (λ _. without-IsClean o xs h)
      (λ _. (c, without-IsClean o xs h))

remove_hidden :
    (cfg : Config) (o : Text) (s : Combobox)
    → (remove_at cfg (some o) s).hidden_value ≡ join b',' (without o s.chips)
unfolding render_chips
remove_hidden cfg o s = ground arith

without-includes : (o : Text) (xs : List Text) → includes (without o xs) o ≡ false
without-includes o [] = refl
without-includes o (x ∷ xs) = ground (arith, without-includes o xs)

-- In a multi-select whose chips show the selection, the button of a chip takes its name out of the
-- selection: the name is not selected afterwards, and the others stay in their order.
selected-remove_at :
    (cfg : Config) (o : Text) (s : Combobox)
    → cfg.multi ≡ true
    → s.chips ≡ selected cfg s
    → (selected cfg (remove_at cfg (some o) s) ≡ without o (selected cfg s))
      × (includes (selected cfg (remove_at cfg (some o) s)) o ≡ false)
selected-remove_at cfg o s m e =
    let same : selected cfg (remove_at cfg (some o) s) ≡ without o (selected cfg s) =
      selected-join cfg _ (without o (selected cfg s)) m
        (without-IsClean o _ (selected-IsClean cfg s))
        (remove_hidden cfg o s ∙ ap (λ xs. join b',' (without o xs)) e) in
    (same, ap (λ xs. includes xs o) same ∙ without-includes o (selected cfg s))

-- No name is listed twice.
abbrev pub IsDistinct : List Text → Type 0
IsDistinct [] = Unit
IsDistinct (x ∷ xs) = (includes xs x ≡ false) × IsDistinct xs

includes-append_one :
    (xs : List Text) (o x : Text)
    → includes xs x ≡ false
    → text_eq o x ≡ false
    → includes (xs ++ (o ∷ [])) x ≡ false
includes-append_one [] o x h e = ground arith
includes-append_one (y ∷ ys) o x h e = ground (arith, includes-append_one ys o x)

IsDistinct-append_one :
    (xs : List Text) (o : Text)
    → IsDistinct xs
    → includes xs o ≡ false
    → IsDistinct (xs ++ (o ∷ []))
IsDistinct-append_one [] o h e = (refl, tt)
IsDistinct-append_one (x ∷ xs) o (p, h) e = (
  includes-append_one xs o x p (ground (arith, text_eq_iff x o, text_eq_iff o x)),
  IsDistinct-append_one xs o h (ground arith),
)

-- Picking a clean name keeps a selection with no duplicates free of them.
pub pick-IsDistinct :
    (cfg : Config) (o : Text) (s : Combobox)
    → cfg.multi ≡ true
    → IsClean o
    → IsDistinct (selected cfg s)
    → IsDistinct (selected cfg (pick cfg o s))
pick-IsDistinct cfg o s m c h =
    rw (selected-pick cfg o s m c)
      (if_both IsDistinct (includes (selected cfg s) o) (λ _. h) (IsDistinct-append_one _ o h))
