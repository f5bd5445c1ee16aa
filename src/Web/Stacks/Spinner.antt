-- ===== src/Web/Stacks/Spinner.antt =====
-- `createDonutSpinner` of web/static/stacks.js: the element that a busy button holds, and its markup as
-- `innerHTML` gives it. No value of these attributes holds a character that the markup escapes.
use doupro.Base.{List, [], ◌∷◌, ◌++◌, Text, codes, text_eq, if◌then◌else◌}

mutual
  pub data Node : Type 0 where
    element : Text → List (Text × Text) → Nodes → Node

  pub data Nodes : Type 0 where
    no_nodes : Nodes
    node : Node → Nodes → Nodes

-- `document.createElementNS('http://www.w3.org/2000/svg', name)`
abbrev pub create_element : Text → Node
create_element name = element name [] no_nodes

abbrev pub put : Text → Text → List (Text × Text) → List (Text × Text)
put k v [] = (k, v) ∷ []
put k v ((j, w) ∷ kvs) =
    let rest = put k v kvs in if text_eq j k then (k, v) ∷ kvs else (j, w) ∷ rest

abbrev pub set_attribute : Text → Text → Node → Node
set_attribute k v (element name kvs children) = element name (put k v kvs) children

abbrev pub add_last : Node → Nodes → Nodes
add_last child no_nodes = node child no_nodes
add_last child (node first rest) = node first (add_last child rest)

abbrev pub append_child : Node → Node → Node
append_child child (element name kvs children) = element name kvs (add_last child children)

-- `cx`, `cy` and `r`, the first three attributes of both circles
abbrev pub circle : Node
circle = set_attribute (codes "r") (codes "10") (
    set_attribute (codes "cy") (codes "12")
      (set_attribute (codes "cx") (codes "12") (create_element (codes "circle"))))

abbrev pub bg_circle : Node
bg_circle = set_attribute (codes "opacity") (codes "0.15") (
    set_attribute (codes "stroke-width") (codes "2")
      (set_attribute (codes "stroke") (codes "currentColor") circle))

abbrev pub arc : Node
arc = set_attribute (codes "stroke-linecap") (codes "round") (
    set_attribute (codes "stroke-dashoffset") (codes "15.7") (
      set_attribute (codes "stroke-dasharray") (codes "62.8") (
        set_attribute (codes "stroke-width") (codes "2") (
          set_attribute (codes "stroke") (codes "currentColor")
            (set_attribute (codes "fill") (codes "none") circle)))))

unfoldable pub create_donut_spinner : Node
create_donut_spinner = append_child arc (
    append_child bg_circle (
      set_attribute (codes "fill") (codes "none") (
        set_attribute (codes "viewBox") (codes "0 0 24 24")
          (set_attribute (codes "class") (codes "doupro-spinner") (create_element (codes "svg"))))))

abbrev pub attributes_html : List (Text × Text) → Text
attributes_html [] = []
attributes_html ((k, v) ∷ kvs) =
    codes " " ++ k ++ codes "=" ++ (34 ∷ v) ++ (34 ∷ attributes_html kvs)

unfoldable mutual
  pub outer_html : Node → Text
  outer_html (element name kvs children) =
      codes "<"
      ++ name
      ++ attributes_html kvs
      ++ codes ">"
      ++ nodes_html children
      ++ codes "</"
      ++ name
      ++ codes ">"

  pub nodes_html : Nodes → Text
  nodes_html no_nodes = []
  nodes_html (node first rest) = outer_html first ++ nodes_html rest
