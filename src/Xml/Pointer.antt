-- ===== src/Xml/Pointer.antt =====
-- get_element_ptr and get_method of src/mxml_wrapper.c, over the search functions of the mxml library.
use thingino_onvif.Base.{Bool, List, [], ◌∷◌, Option, none, some, ◌==◌, if◌then◌else◌, Bytes, codes}
use thingino_onvif.Xml.{
  Nodes, end, element, text, other, Document, first_child, ends_with, is_element,
}

-- mxml: `find_element n name` is mxmlFindElement(n, n, name, …, MXML_DESCEND_ALL), and `walk n` lists
-- the nodes that mxmlFindElement without a name and then mxmlWalkNext give.
pub record Mxml : Type 0 where
  pub find_element : Nodes → Bytes → Option Nodes
  pub walk : Nodes → List Nodes

unfoldable pub first_with : (Bytes → Bool) → List Nodes → Option Nodes
first_with p [] = none
first_with p (element x kids next ∷ nodes) =
    let later = first_with p nodes in if p x then some (element x kids next) else later
first_with p (end ∷ nodes) = first_with p nodes
first_with p (text s next ∷ nodes) = first_with p nodes
first_with p (other next ∷ nodes) = first_with p nodes

-- The first element among some siblings.
unfoldable pub method_node : Nodes → Option Bytes
method_node end = none
method_node (element x kids next) = some x
method_node (text s next) = method_node next
method_node (other next) = method_node next

unfoldable pub behind_colon : Bytes → Option Bytes
behind_colon [] = none
behind_colon (c ∷ s) = let later = behind_colon s in if c == b':' then some s else later

-- The name behind the first colon, or all of it.
unfoldable pub local_name : Bytes → Bytes
unfolding behind_colon
local_name x = elim (behind_colon x) [ none ↦ x | some s ↦ s ]

abbrev method_in : Option Nodes → Option Bytes
method_in none = none
method_in (some body) = method_node (first_child body)

-- The body that was found first is kept where no other one is there.
abbrev body_or : Option Nodes → Option Nodes → Option Nodes
body_or first none = first
body_or first (some body) = some body

module _ (m : Mxml) where
  open m use {find_element, walk}

  -- An exact name anywhere goes before a name with a prefix.
  unfoldable pub find_exact_first : (Bytes → Bool) → Bytes → Nodes → Option Nodes
  unfolding first_with
  find_exact_first p name n = elim (find_element n name) [
    | none ↦ first_with p (walk n)
    | some found ↦ some found
  ]

  abbrev pub search_root : Option Nodes → Document → Nodes
  search_root none doc = doc.root
  search_root (some n) doc = n

  -- `root_xml` is not null.
  unfoldable pub get_element_ptr : Document → Option Nodes → Bytes → Option Bytes → Option Nodes
  unfolding find_exact_first is_element ends_with
  get_element_ptr doc start_from name none =
      find_exact_first (is_element name) name (search_root start_from doc)
  get_element_ptr doc start_from name (some first_node) =
      elim (find_exact_first (ends_with first_node) first_node (search_root start_from doc)) [
        | none ↦ none
        | some first ↦ find_exact_first (is_element name) name first
      ]

  unfoldable pub get_method : Bool → Document → Option Bytes
  unfolding method_node first_with local_name first_child
  get_method skip_prefix doc = elim (method_in (find_element doc.root (codes "Body"))) [
    | none ↦
        elim (method_in (
          body_or (find_element doc.root (codes "Body"))
            (first_with (ends_with (codes ":Body")) (walk doc.root)))) [
              | none ↦ none
              | some x ↦ some (if skip_prefix then local_name x else x)
            ]
    | some x ↦ some (if skip_prefix then local_name x else x)
  ]
