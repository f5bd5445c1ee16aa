-- ===== src/Web/Wiring/Once.antt =====
-- That every script attaches its listeners once.
use doupro.Base.{ap₂, true, false, ◌≡◌, refl, sym, ap, ◌∙◌, List, [], ◌∷◌, ◌++◌, arith}
use doupro.Web.Wiring.{
  parse, script, stacks, updatable_filter, update_actions, theme, sidebar, Script, Element,
  Document, wire, wire_each, inject_style, stacks_script, filter_script, actions_script,
  theme_script, sidebar_script, run_script, Work, load, content_loaded, run_scripts, blank,
  open_page,
}

abbrev pub scripts_of : List Work → List Script
scripts_of [] = []
scripts_of (parse tag ∷ ws) = scripts_of ws
scripts_of (script s ∷ ws) = s ∷ scripts_of ws

abbrev pub parsed : List Work → List Element
parsed [] = []
parsed (parse tag ∷ ws) = record { tag = tag; listeners = [] } ∷ parsed ws
parsed (script s ∷ ws) = parsed ws

append_assoc {ℓ} : {A : Type ℓ} (xs ys zs : List A) → (xs ++ ys) ++ zs ≡ xs ++ (ys ++ zs)
append_assoc [] ys zs = refl
append_assoc (x ∷ xs) ys zs = ap (λ t. x ∷ t) (append_assoc xs ys zs)

append_nil {ℓ} : {A : Type ℓ} (xs : List A) → xs ++ [] ≡ xs
append_nil [] = refl
append_nil (x ∷ xs) = ap (λ t. x ∷ t) (append_nil xs)

run_script_loading :
    (s : Script) (d : Document)
    → d.loading ≡ true
    → ((run_script s d).loading ≡ true)
      × ((run_script s d).waiting ≡ d.waiting ++ (s ∷ []))
      × ((run_script s d).elements ≡ d.elements)
unfolding stacks_script filter_script actions_script theme_script sidebar_script inject_style
run_script_loading stacks d h = ground arith
run_script_loading updatable_filter d h = ground arith
run_script_loading update_actions d h = ground arith
run_script_loading theme d h = ground arith
run_script_loading sidebar d h = ground arith

run_script_loaded :
    (s : Script) (d : Document)
    → d.loading ≡ false
    → ((run_script s d).loading ≡ false) × ((run_script s d).elements ≡ wire s d.elements)
unfolding stacks_script filter_script actions_script theme_script sidebar_script inject_style
run_script_loaded stacks d h = ground arith
run_script_loaded updatable_filter d h = ground arith
run_script_loaded update_actions d h = ground arith
run_script_loaded theme d h = ground arith
run_script_loaded sidebar d h = ground arith

load_waits :
    (ws : List Work) (d : Document)
    → d.loading ≡ true
    → ((load ws d).waiting ≡ d.waiting ++ scripts_of ws)
      × ((load ws d).elements ≡ d.elements ++ parsed ws)
load_waits [] d h = (sym (append_nil d.waiting), sym (append_nil d.elements))
load_waits (parse tag ∷ ws) d h =
    let (waits, shown) =
      load_waits ws
        (record d { elements = d.elements ++ ((record { tag = tag; listeners = [] }) ∷ []) }) h in
    (
      waits,
      shown ∙ append_assoc d.elements ((record { tag = tag; listeners = [] }) ∷ []) (parsed ws),
    )
load_waits (script s ∷ ws) d h =
    let (loading, waits, same) = run_script_loading s d h in
    let (all, shown) = load_waits ws (run_script s d) loading in
    (
      all ∙ ap (λ t. t ++ scripts_of ws) waits ∙ append_assoc d.waiting (s ∷ []) (scripts_of ws),
      shown ∙ ap (λ t. t ++ parsed ws) same,
    )

wires_after :
    (ss : List Script) (d : Document)
    → d.loading ≡ false
    → (run_scripts ss d).elements ≡ wire_each ss d.elements
wires_after [] d h = refl
wires_after (s ∷ ss) d h =
    let (loaded, wired) = run_script_loaded s d h in
    wires_after ss (run_script s d) loaded ∙ ap (wire_each ss) wired

wire_each-append :
    (ss ts : List Script) (els : List Element)
    → wire_each (ss ++ ts) els ≡ wire_each ts (wire_each ss els)
wire_each-append [] ts els = refl
wire_each-append (s ∷ ss) ts els = wire_each-append ss ts (wire s els)

-- Wherever the scripts stand between the elements of a page, and whichever of them run only after the
-- document is loaded, the page ends wired as if it had been parsed as a whole before the first script,
-- and each script had then attached its listeners once, in order: none misses an element that is
-- parsed after it, and none waits for an event that is over.
pub open_page-wired :
    (before : List Work) (after : List Script)
    → (open_page before after).elements ≡ wire_each (scripts_of before ++ after) (parsed before)
open_page-wired before after =
    let (waits, shown) = load_waits before blank refl in
    wires_after after (content_loaded (load before blank)) refl
    ∙ ap₂ (λ ss els. wire_each after (wire_each ss els)) waits shown
    ∙ sym (wire_each-append (scripts_of before) after (parsed before))
