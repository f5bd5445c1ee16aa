-- ===== src/Web/Stacks.antt =====
-- The collapsible stacks of the Containers page: the first function of web/static/stacks.js.
-- `JSON` is an interface, and a stored text that it parses is an object of Booleans. Every section
-- has a chevron.
pub mod Collapse
pub mod Filter
pub mod Action
pub mod Spinner
use doupro.Base.{
  Bool, true, false, not, ◌||◌, ◌≡◌, Option, none, some, List, [], ◌∷◌, ℕ, zero, suc, Text, codes,
  text_eq, includes, if◌then◌else◌,
}

-- The own properties of the `state` object.
abbrev pub Object : Type 0
Object = List (Text × Bool)

abbrev pub own : Text → Object → Option Bool
own k [] = none
own k ((j, v) ∷ s) = let rest = own k s in if text_eq j k then some v else rest

-- What every object inherits; each of these values is truthy.
abbrev pub inherited : List Text
inherited =
    codes "constructor"
    ∷ codes "hasOwnProperty"
    ∷ codes "isPrototypeOf"
    ∷ codes "propertyIsEnumerable"
    ∷ codes "toLocaleString"
    ∷ codes "toString"
    ∷ codes "valueOf"
    ∷ codes "__proto__"
    ∷ codes "__defineGetter__"
    ∷ codes "__defineSetter__"
    ∷ codes "__lookupGetter__"
    ∷ codes "__lookupSetter__"
    ∷ []

-- `!!state[name]`
unfoldable pub is_set : Text → Object → Bool
is_set name s = elim (own name s) [ some v ↦ v | none ↦ includes inherited name ]

abbrev update : Text → Bool → Object → Object
update k v [] = (k, v) ∷ []
update k v ((j, w) ∷ s) =
    let rest = update k v s in if text_eq j k then (k, v) ∷ s else (j, w) ∷ rest

-- `state[name] = v`: a Boolean that would become the prototype is ignored.
unfoldable pub assign : Text → Bool → Object → Object
assign name v s = elim (own name s) [
  | some _ ↦ update name v s
  | none ↦ if text_eq name (codes "__proto__") then s else update name v s
]

-- `JSON.parse`, `none` where it throws, and `JSON.stringify`, which keeps the own properties.
pub record Json : Type 0 where
  pub parse : Text → Option Object
  pub stringify : Object → Text
  pub parse_empty : parse (codes "{}") ≡ some []
  pub parse-stringify :
      (s : Object)
      → (t : Object) × (parse (stringify s) ≡ some t) × ((k : Text) → own k t ≡ own k s)
  pub stringify_full : (s : Object) → text_eq (stringify s) [] ≡ false

-- A `[data-stack]` section: whether it has its toggle and its body, and the classes that the script
-- sets on the body and on the chevron.
pub record Section : Type 0 where
  pub name : Text
  pub complete : Bool
  pub body_hidden : Bool
  pub chevron_rotated : Bool

pub record Page : Type 0 where
  -- the item of `localStorage`
  pub storage : Option Text
  pub state : Object
  pub sections : List Section

unfoldable pub apply_state : Bool → Section → Section
apply_state collapsed c = record c { body_hidden = collapsed; chevron_rotated = not collapsed }

-- The wiring of one section.
unfoldable pub wire_section : Object → Section → Section
unfolding apply_state
wire_section state c = if c.complete then apply_state (is_set c.name state) c else c

abbrev pub wire_all : Object → List Section → List Section
wire_all state [] = []
wire_all state (c ∷ cs) = wire_section state c ∷ wire_all state cs

-- Assign to the section with the index, if there is one.
abbrev pub at_section : ℕ → (Section → Section) → List Section → List Section
at_section i f [] = []
at_section zero f (c ∷ cs) = f c ∷ cs
at_section (suc i) f (c ∷ cs) = c ∷ at_section i f cs

module _ (json : Json) where
  abbrev parse_or_empty : Text → Object
  parse_or_empty t = elim (json.parse t) [ some s ↦ s | none ↦ [] ]

  -- `localStorage.getItem(STORAGE_KEY) || '{}'`
  unfoldable pub load_state : Option Text → Object
  load_state none = parse_or_empty (codes "{}")
  load_state (some t) = parse_or_empty (if text_eq t [] then codes "{}" else t)

  -- `wireStacks`, on the sections as the server renders them
  unfoldable pub wire_stacks : Option Text → List Section → Page
  wire_stacks storage sections =
      let state = load_state storage in
      record { storage = storage; state = state; sections = wire_all state sections }

  -- the listener of the toggle of the section with index `i`, which is `c`
  unfoldable pub click : ℕ → Section → Page → Page
  click i c p =
      if c.complete
      then (let collapsed = not (is_set c.name p.state) in
          let state = assign c.name collapsed p.state in
          record {
            storage = some (json.stringify state);
            state = state;
            sections = at_section i (apply_state collapsed) p.sections;
          })
      else p
