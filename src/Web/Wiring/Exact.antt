-- ===== src/Web/Wiring/Exact.antt =====
-- How many listeners the elements of a page have once its scripts have run.
use doupro.Base.{inl, inr, not, ◌||◌, List, [], ◌∷◌, ◌++◌, suc, arith, All, Bool-cases}
use doupro.Web.Wiring.{
  parse, script, Script, Element, add_to_first, has, is_section, is_action, is_filter, is_theme,
  is_hide, is_show, wire_stack_toggles, wire_updatable_filter, wire_update_actions,
  wire_theme_toggle, wire_sidebar_toggle, wire, wire_each, Work, stack_section, submit_button,
  filter_button, theme_button, hide_button, show_button, other, stacks, updatable_filter,
  update_actions, theme, sidebar, flips_filter, flips_stack, acts, flips_theme, hides, shows,
  open_page,
}
use doupro.Web.Wiring.Once.{scripts_of, parsed, open_page-wired}
use doupro.Web.Wiring.Counts.{
  Runs, ran, runs_of, no_runs, IsWired, add_to_all-IsWired, All-Keeps, add_to_first-IsWired,
}
use doupro.Web.Wiring.Suits.{
  is_section-Suits, is_filter-Suits, filter-Keeps, is_action-Suits, is_theme-Suits, theme-Keeps,
  is_hide-Suits, hide-Keeps, is_show-Suits, show-Keeps,
}

wire_sidebar_toggle-IsWired :
    (n : Runs) (els : List Element)
    → All (IsWired n) els
    → All (IsWired (ran sidebar n)) (wire_sidebar_toggle els)
unfolding wire_sidebar_toggle
wire_sidebar_toggle-IsWired n els h =
    let m : Runs = record n { of_hide = suc n.of_hide } in
    let both =
      add_to_first-IsWired is_show shows m (ran sidebar n)
        (add_to_first (λ el. is_hide el.tag) hides els) (is_show-Suits m) (show-Keeps m)
        (add_to_first-IsWired is_hide hides n m els (is_hide-Suits n) (hide-Keeps n) h) in
    let neither =
      All-Keeps m (ran sidebar n) els (show-Keeps m) (All-Keeps n m els (hide-Keeps n) h) in
    elim (Bool-cases
      (not (has (λ el. is_hide el.tag) els) || not (has (λ el. is_show el.tag) els))) [
        | inl missing ↦ rw missing neither
        | inr found ↦ rw found both
      ]

wire-IsWired :
    (s : Script) (n : Runs) (els : List Element)
    → All (IsWired n) els
    → All (IsWired (ran s n)) (wire s els)
unfolding wire_stack_toggles wire_updatable_filter wire_update_actions wire_theme_toggle
wire-IsWired stacks n els h =
    add_to_all-IsWired is_section flips_stack n (ran stacks n) els (is_section-Suits n) h
wire-IsWired updatable_filter n els h =
    add_to_first-IsWired is_filter flips_filter n (ran updatable_filter n) els (is_filter-Suits n)
      (filter-Keeps n) h
wire-IsWired update_actions n els h =
    add_to_all-IsWired is_action acts n (ran update_actions n) els (is_action-Suits n) h
wire-IsWired theme n els h =
    add_to_first-IsWired is_theme flips_theme n (ran theme n) els (is_theme-Suits n) (theme-Keeps n)
      h
wire-IsWired sidebar n els h = wire_sidebar_toggle-IsWired n els h

wire_each-IsWired :
    (ss : List Script) (n : Runs) (els : List Element)
    → All (IsWired n) els
    → All (IsWired (runs_of ss n)) (wire_each ss els)
wire_each-IsWired [] n els h = h
wire_each-IsWired (s ∷ ss) n els h =
    wire_each-IsWired ss (ran s n) (wire s els) (wire-IsWired s n els h)

parsed-IsWired : (ws : List Work) → All (IsWired no_runs) (parsed ws)
parsed-IsWired [] = tt
parsed-IsWired (parse (stack_section complete) ∷ ws) = (ground arith, parsed-IsWired ws)
parsed-IsWired (parse (submit_button action) ∷ ws) = (ground arith, parsed-IsWired ws)
parsed-IsWired (parse filter_button ∷ ws) = (ground arith, parsed-IsWired ws)
parsed-IsWired (parse theme_button ∷ ws) = (ground arith, parsed-IsWired ws)
parsed-IsWired (parse hide_button ∷ ws) = (ground arith, parsed-IsWired ws)
parsed-IsWired (parse show_button ∷ ws) = (ground arith, parsed-IsWired ws)
parsed-IsWired (parse other ∷ ws) = (ground arith, parsed-IsWired ws)
parsed-IsWired (script s ∷ ws) = parsed-IsWired ws

-- On a page, however its scripts and its elements are ordered, each collapsible stack that is complete
-- and each button of an update or a rollback has exactly one listener for every run of its script, each
-- element that a script looks for by `id` has at most one for every run, and nothing else has any: with
-- every script included once, a click runs one listener and no operation is requested twice.
open_page-IsWired :
    (before : List Work) (after : List Script)
    → All (IsWired (runs_of (scripts_of before ++ after) no_runs)) (open_page before after).elements
open_page-IsWired before after =
    rw (open_page-wired before after) (
      wire_each-IsWired (scripts_of before ++ after) no_runs (parsed before)
        (parsed-IsWired before))
