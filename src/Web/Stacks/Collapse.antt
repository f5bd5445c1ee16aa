-- ===== src/Web/Stacks/Collapse.antt =====
-- Which stacks are collapsed after a click, and after the page is loaded again.
use doupro.Base.{
  Bool, true, not, ◌≡◌, ◌≢◌, refl, ap, ◌∙◌, Option, none, some, List, [], ◌∷◌, ℕ, zero, suc, Text,
  codes, text_eq, text_eq_iff, includes, if◌then◌else◌, arith, get_elem?,
}
use doupro.Web.Stacks.{
  Object, own, inherited, is_set, update, assign, Json, Section, Page, apply_state, wire_section,
  at_section, load_state, wire_stacks, click,
}

own-update :
    (k j : Text) (v : Bool) (s : Object)
    → own j (update k v s) ≡ (if text_eq k j then some v else own j s)
own-update k j v [] = ground arith
own-update k j v ((i, w) ∷ s) =
    ground (arith, text_eq_iff i k, text_eq_iff i j, text_eq_iff k j, own-update k j v s)

is_set-update :
    (k j : Text) (v : Bool) (s : Object)
    → is_set j (update k v s) ≡ (if text_eq k j then v else is_set j s)
unfolding is_set
is_set-update k j v s = ground (arith, own-update k j v s)

-- An assignment changes the property that it names and no other; it takes effect unless it would
-- replace the prototype.
pub is_set-assign :
    (k j : Text) (v : Bool) (s : Object)
    → k ≢ codes "__proto__"
    → is_set j (assign k v s) ≡ (if text_eq k j then v else is_set j s)
unfolding assign
is_set-assign k j v s h = ground (arith, is_set-update k j v s, text_eq_iff k (codes "__proto__"))

is_set-cong : (k : Text) (s t : Object) → own k s ≡ own k t → is_set k s ≡ is_set k t
unfolding is_set
is_set-cong k s t e = rw (e, is_set)

wire_section-hidden :
    (state : Object) (c : Section)
    → c.complete ≡ true
    → (wire_section state c).body_hidden ≡ is_set c.name state
unfolding wire_section
wire_section-hidden state c h = ground arith

get_elem?-at_section :
    (cs : List Section) (i : ℕ) (f : Section → Section) (c : Section)
    → get_elem? cs i ≡ some c
    → get_elem? (at_section i f cs) i ≡ some (f c)
get_elem?-at_section [] i f c e = cc
get_elem?-at_section (d ∷ cs) zero f c e = ground arith
get_elem?-at_section (d ∷ cs) (suc i) f c e = get_elem?-at_section cs i f c e

module _ (json : Json) where
  load_state-stringify :
      (k : Text) (s : Object) → is_set k (load_state json (some (json.stringify s))) ≡ is_set k s
  unfolding load_state
  load_state-stringify k s =
      let (t, e, same) = json.parse-stringify s in
      ground (arith, json.stringify_full s, is_set-cong k t s (same k))

  click-state :
      (i : ℕ) (c : Section) (p : Page)
      → c.complete ≡ true
      → ((click json i c p).state ≡ assign c.name (not (is_set c.name p.state)) p.state)
        × ((click json i c p).storage ≡ some (json.stringify (click json i c p).state))
  unfolding click
  click-state i c p h = ground arith

  wire_stacks-state :
      (storage : Option Text) (cs : List Section)
      → (wire_stacks json storage cs).state ≡ load_state json storage
  unfolding wire_stacks
  wire_stacks-state storage cs = refl

  reload-is_set :
      (k : Text) (i : ℕ) (c : Section) (p : Page) (rendered : List Section)
      → c.complete ≡ true
      → c.name ≢ codes "__proto__"
      → is_set k (wire_stacks json (click json i c p).storage rendered).state
        ≡ (if text_eq c.name k then not (is_set c.name p.state) else is_set k p.state)
  reload-is_set k i c p rendered h n =
      let (e, stored) = click-state i c p h in
      ap (is_set k)
        (wire_stacks-state (click json i c p).storage rendered ∙ ap (load_state json) stored)
      ∙ load_state-stringify k (click json i c p).state
      ∙ ap (is_set k) e
      ∙ is_set-assign c.name k (not (is_set c.name p.state)) p.state n

  click-section :
      (i : ℕ) (c : Section) (p : Page)
      → c.complete ≡ true
      → get_elem? p.sections i ≡ some c
      → get_elem? (click json i c p).sections i ≡ some (apply_state (not (is_set c.name p.state)) c)
  unfolding click
  click-section i c p h e =
      ground
        (arith, get_elem?-at_section p.sections i (apply_state (not (is_set c.name p.state))) c)

  -- A click on the toggle of a section flips what the section shows. When the page is loaded again,
  -- every section of that stack is shown so, and the sections of other stacks as the script's state
  -- had them before the click. The section has a toggle and a body, and its stack is not called
  -- `__proto__`.
  click_persists :
      (i : ℕ) (c : Section) (p : Page) (rendered : List Section) (d : Section)
      → c.complete ≡ true
      → c.name ≢ codes "__proto__"
      → get_elem? p.sections i ≡ some c
      → d.complete ≡ true
      → (get_elem? (click json i c p).sections i
          ≡ some (record c {
            body_hidden = not (is_set c.name p.state);
            chevron_rotated = not (not (is_set c.name p.state));
          }))
        × ((wire_section (wire_stacks json (click json i c p).storage rendered).state d).body_hidden
            ≡ (if text_eq c.name d.name
                then not (is_set c.name p.state)
                else is_set d.name p.state))
  unfolding apply_state
  click_persists i c p rendered d h n at k = (
    click-section i c p h at,
    wire_section-hidden _ d k ∙ reload-is_set d.name i c p rendered h n,
  )

-- A stack whose name the user never toggled is expanded, unless it is called like a property that
-- every JavaScript object has.
fresh_stack :
    (json : Json) (name : Text) → is_set name (load_state json none) ≡ includes inherited name
unfolding load_state is_set
fresh_stack json name = ground (arith, json.parse_empty)
