-- ===== src/Dom.antt =====
-- The markup that the scripts build: elements with their attributes and children, and texts. `className`
-- and a property of `dataset` are written as the attributes `class` and `data-…`.
use fetchly.Common.{String, List, [], ◌∷◌, ◌==◌, if◌then◌else◌}

abbrev pub Attributes : Type 0
Attributes = List (String × String)

mutual
  pub data Dom : Type 0 where
    text_node : String → Dom
    element : String → Attributes → Nodes → Dom

  pub data Nodes : Type 0 where
    no_more : Nodes
    node : Dom → Nodes → Nodes

unfoldable pub nodes : List Dom → Nodes
nodes [] = no_more
nodes (d ∷ ds) = node d (nodes ds)

-- An element whose children are listed.
abbrev pub el : String → Attributes → List Dom → Dom
el tag attributes children = element tag attributes (nodes children)

-- An element with a class and a text.
abbrev pub leaf : String → String → String → Dom
leaf tag class content = el tag (("class", class) ∷ []) (text_node content ∷ [])

-- `if (v) element.name = v`
abbrev pub attribute_if : String → String → Attributes
attribute_if name v = if v == "" then [] else (name, v) ∷ []

-- A Material Symbols icon.
unfoldable pub icon_span : String → String → Dom
unfolding nodes
icon_span class name =
    el "span" (("class", class) ∷ ("aria-hidden", "true") ∷ []) (text_node name ∷ [])
