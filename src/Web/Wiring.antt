-- ===== src/Web/Wiring.antt =====
-- When the scripts attach their listeners: the end of each of web/static/stacks.js (three functions),
-- web/static/theme.js and web/static/sidebar.js. What the listeners do is in the modules of the pages.
-- Elements are parsed in the order of the document, and `DOMContentLoaded` comes once, after the last.
pub mod Once
pub mod Counts
pub mod Suits
pub mod Exact
use doupro.Base.{
  Bool, true, false, not, ◌||◌, List, [], ◌∷◌, ◌++◌, ℕ, suc, Text, codes, text_eq, occurs, includes,
  if◌then◌else◌,
}

pub data Script : Type 0 where
  stacks updatable_filter update_actions theme sidebar : Script

-- What the scripts look for: a `[data-stack]` section, and whether it has its toggle and its body; a
-- submit button and the `action` of its form; the elements with an `id`.
pub data Tag : Type 0 where
  stack_section : Bool → Tag
  submit_button : Text → Tag
  filter_button theme_button hide_button show_button other : Tag

pub data Listener : Type 0 where
  flips_stack flips_filter acts flips_theme hides shows : Listener

pub record Element : Type 0 where
  pub tag : Tag
  pub listeners : List Listener

pub record Document : Type 0 where
  -- `document.readyState === 'loading'`
  pub loading : Bool
  pub elements : List Element
  -- the listeners of `DOMContentLoaded`
  pub waiting : List Script
  -- the `id` of every style of the head
  pub styles : List Text

abbrev pub listen : Listener → Element → Element
listen l el = record el { listeners = el.listeners ++ (l ∷ []) }

-- `querySelectorAll(…).forEach(…)`
abbrev pub add_to_all : (Element → Bool) → Listener → List Element → List Element
add_to_all p l [] = []
add_to_all p l (el ∷ els) = (if p el then listen l el else el) ∷ add_to_all p l els

-- `getElementById(…)`, the first of the elements, and nothing where there is none
abbrev pub add_to_first : (Element → Bool) → Listener → List Element → List Element
add_to_first p l [] = []
add_to_first p l (el ∷ els) =
    let rest = add_to_first p l els in if p el then listen l el ∷ els else el ∷ rest

abbrev pub has : (Element → Bool) → List Element → Bool
has p [] = false
has p (el ∷ els) = if p el then true else has p els

abbrev pub is_section : Tag → Bool
is_section (stack_section complete) = complete
is_section _ = false

-- `form[action*="/update"] button[type="submit"], form[action*="/rollback"] button[type="submit"]`
abbrev pub is_operation : Text → Bool
is_operation action = occurs (codes "/update") action || occurs (codes "/rollback") action

abbrev pub is_action : Tag → Bool
is_action (submit_button action) = is_operation action
is_action _ = false

abbrev pub is_filter : Tag → Bool
is_filter filter_button = true
is_filter _ = false

abbrev pub is_theme : Tag → Bool
is_theme theme_button = true
is_theme _ = false

abbrev pub is_hide : Tag → Bool
is_hide hide_button = true
is_hide _ = false

abbrev pub is_show : Tag → Bool
is_show show_button = true
is_show _ = false

unfoldable pub wire_stack_toggles : List Element → List Element
wire_stack_toggles els = add_to_all (λ el. is_section el.tag) flips_stack els

unfoldable pub wire_updatable_filter : List Element → List Element
wire_updatable_filter els = add_to_first (λ el. is_filter el.tag) flips_filter els

unfoldable pub wire_update_actions : List Element → List Element
wire_update_actions els = add_to_all (λ el. is_action el.tag) acts els

unfoldable pub wire_theme_toggle : List Element → List Element
wire_theme_toggle els = add_to_first (λ el. is_theme el.tag) flips_theme els

unfoldable pub wire_sidebar_toggle : List Element → List Element
wire_sidebar_toggle els =
    if not (has (λ el. is_hide el.tag) els) || not (has (λ el. is_show el.tag) els)
    then els
    else add_to_first (λ el. is_show el.tag) shows (add_to_first (λ el. is_hide el.tag) hides els)

abbrev pub wire : Script → List Element → List Element
wire stacks els = wire_stack_toggles els
wire updatable_filter els = wire_updatable_filter els
wire update_actions els = wire_update_actions els
wire theme els = wire_theme_toggle els
wire sidebar els = wire_sidebar_toggle els

abbrev pub wire_each : List Script → List Element → List Element
wire_each [] els = els
wire_each (s ∷ ss) els = wire_each ss (wire s els)

-- The test of `readyState` that ends each script.
abbrev pub when_ready : Script → Document → Document
when_ready s d =
    if d.loading
    then record d { waiting = d.waiting ++ (s ∷ []) }
    else record d { elements = wire s d.elements }

abbrev pub style_id : Text
style_id = codes "doupro-spinner-style"

unfoldable pub inject_style : Document → Document
inject_style d =
    if not (includes d.styles style_id)
    then record d { styles = d.styles ++ (style_id ∷ []) }
    else d

unfoldable pub stacks_script : Document → Document
stacks_script d = when_ready stacks d

unfoldable pub filter_script : Document → Document
filter_script d = when_ready updatable_filter d

unfoldable pub actions_script : Document → Document
actions_script d = when_ready update_actions (inject_style d)

unfoldable pub theme_script : Document → Document
theme_script d = when_ready theme d

unfoldable pub sidebar_script : Document → Document
sidebar_script d = when_ready sidebar d

abbrev pub run_script : Script → Document → Document
run_script stacks d = stacks_script d
run_script updatable_filter d = filter_script d
run_script update_actions d = actions_script d
run_script theme d = theme_script d
run_script sidebar d = sidebar_script d

-- What happens while the document is loading.
pub data Work : Type 0 where
  parse : Tag → Work
  script : Script → Work

abbrev pub load : List Work → Document → Document
load [] d = d
load (parse tag ∷ ws) d =
    load ws (record d { elements = d.elements ++ ((record { tag = tag; listeners = [] }) ∷ []) })
load (script s ∷ ws) d = load ws (run_script s d)

abbrev pub content_loaded : Document → Document
content_loaded d = record d {
  loading = false;
  elements = wire_each d.waiting d.elements;
  waiting = [];
}

abbrev pub run_scripts : List Script → Document → Document
run_scripts [] d = d
run_scripts (s ∷ ss) d = run_scripts ss (run_script s d)

abbrev pub blank : Document
blank = record { loading = true; elements = []; waiting = []; styles = [] }

-- A page: what is done while it loads, and the scripts that run afterwards.
abbrev pub open_page : List Work → List Script → Document
open_page before after = run_scripts after (content_loaded (load before blank))
