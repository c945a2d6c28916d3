-- ===== src/Xml.antt =====
-- The XML reading of src/mxml_wrapper.c: the searches for elements and their texts in a parsed request.
-- The nodes of the mxml library are a tree; its own search functions are a parameter.
pub mod Search
pub mod Pointer
pub mod Walk
mod Tests
use thingino_onvif.Base.{
  ℕ, suc, ◌-◌, Bool, true, false, ◌&&◌, ◌||◌, List, [], ◌∷◌, Option, none, some, ◌==◌, leb,
  if◌then◌else◌, Bytes, codes, equal, length, drop, get_elem?,
}

-- A node together with the siblings behind it, as a pointer to a node gives them; `end` is the null
-- pointer. An element has a name and children; comments and the like are `other`.
pub data Nodes : Type 0 where
  end : Nodes
  element : Bytes → Nodes → Nodes → Nodes
  text : Bytes → Nodes → Nodes
  other : Nodes → Nodes

-- `root_xml`, and whether it has a parent, as it does behind an XML declaration.
pub record Document : Type 0 where
  pub root : Nodes
  pub has_parent : Bool

unfoldable pub first_child : Nodes → Nodes
first_child end = end
first_child (element x kids next) = kids
first_child (text s next) = end
first_child (other next) = end

-- The text of the first node of that kind among the children.
unfoldable pub first_text : Nodes → Option Bytes
first_text end = none
first_text (element x kids next) = first_text next
first_text (text s next) = some s
first_text (other next) = first_text next

-- `len >= n && strcmp(name, &x[len - n]) == 0`
unfoldable pub ends_with : Bytes → Bytes → Bool
unfolding equal
ends_with name x = leb (length name) (length x) && equal name (drop (length x - length name) x)

abbrev is_colon : Option ℕ → Bool
is_colon none = false
is_colon (some c) = c == b':'

-- `name`, or `something:name`
unfoldable pub is_element : Bytes → Bytes → Bool
unfolding ends_with equal
is_element name x =
    equal name x
    || leb (suc (length name)) (length x)
      && ends_with name x
      && is_colon (get_elem? x (length x - length name - 1))

abbrev pub or_empty : Option Bytes → Bytes
or_empty none = []
or_empty (some s) = s

-- The siblings are asked when the children had nothing; `go_to_parent` is set when these have nothing.
unfoldable pub after_siblings : Option Bytes × Bool → Option Bytes × Bool
after_siblings (ret, true) = (none, true)
after_siblings (none, false) = (none, true)
after_siblings (some s, false) = (some s, false)

unfoldable pub after_children : Option Bytes → Option Bytes × Bool → Option Bytes × Bool
unfolding after_siblings
after_children (some s) later = (some s, false)
after_children none later = after_siblings later

-- The recursion below the root, with the flag `go_to_parent`. A null pointer is not called for.
unfoldable pub get_element_rec : Bytes → Nodes → Bool → Option Bytes × Bool
unfolding is_element first_text after_children
get_element_rec name end go_to_parent = (none, go_to_parent)
get_element_rec name (element x kids next) true = (none, true)
get_element_rec name (text s next) true = (none, true)
get_element_rec name (other next) true = (none, true)
get_element_rec name (element x kids next) false =
    let found : Option Bytes × Bool = (some (or_empty (first_text kids)), false) in
    let deeper =
      after_children (get_element_rec name kids false).0 (get_element_rec name next false) in
    if is_element name x then found else deeper
get_element_rec name (text s next) false = after_siblings (get_element_rec name next false)
get_element_rec name (other next) false = after_siblings (get_element_rec name next false)

-- At the root the first child whose name ends in `first_node` is where the recursion starts.
unfoldable pub from_first : Bytes → Nodes → Nodes
unfolding ends_with
from_first first_node end = end
from_first first_node (element x kids next) =
    let later = from_first first_node next in
    if ends_with first_node x then element x kids next else later
from_first first_node (text s next) = from_first first_node next
from_first first_node (other next) = from_first first_node next

unfoldable pub get_element : Document → Bytes → Bytes → Option Bytes
unfolding get_element_rec from_first first_child
get_element doc name first_node =
    (get_element_rec name
      (if doc.has_parent then doc.root else from_first first_node (first_child doc.root)) false).0

-- The first of some siblings with the name.
unfoldable pub find_sibling : Bytes → Nodes → Option Nodes
unfolding is_element
find_sibling name end = none
find_sibling name (element x kids next) =
    let later = find_sibling name next in
    if is_element name x then some (element x kids next) else later
find_sibling name (text s next) = find_sibling name next
find_sibling name (other next) = find_sibling name next

unfoldable pub get_element_in_element_ptr : Bytes → Nodes → Option Nodes
unfolding find_sibling first_child
get_element_in_element_ptr name father = find_sibling name (first_child father)

abbrev text_in : Option Nodes → Option Bytes
text_in none = none
text_in (some node) = first_text (first_child node)

unfoldable pub get_element_in_element : Bytes → Nodes → Option Bytes
unfolding get_element_in_element_ptr first_text first_child
get_element_in_element name father = text_in (get_element_in_element_ptr name father)
