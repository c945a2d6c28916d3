-- ===== src/Imaging/Settings/Find.antt =====
-- How SetImagingSettings of src/imaging_service.c finds the values of a request.
use thingino_onvif.Base.{Option, none, some, if◌then◌else◌, Bytes, codes, equal}
use thingino_onvif.Xml.{
  Nodes, end, element, text, other, first_text, get_element_in_element, get_element_in_element_ptr,
}
use thingino_onvif.Xml.Pointer.{local_name}

abbrev pub or_else {ℓ} : {A : Type ℓ} → Option A → Option A → Option A
or_else none b = b
or_else (some a) b = some a

abbrev own_text : Bytes → Bytes → Nodes → Option Bytes
own_text tag x kids = if equal (local_name x) tag then first_text kids else none

-- The search below some siblings: each element before its children.
unfoldable pub find_among : Bytes → Nodes → Option Bytes
unfolding local_name first_text equal
find_among tag end = none
find_among tag (element x kids next) =
    or_else (own_text tag x kids) (or_else (find_among tag kids) (find_among tag next))
find_among tag (text s next) = find_among tag next
find_among tag (other next) = find_among tag next

-- The text of the first element with the name, whatever its prefix, from the node on downwards.
unfoldable pub find_child_value : Bytes → Nodes → Option Bytes
unfolding find_among
find_child_value tag end = none
find_child_value tag (element x kids next) = or_else (own_text tag x kids) (find_among tag kids)
find_child_value tag (text s next) = none
find_child_value tag (other next) = none

abbrev level_in : Option Nodes → Option Bytes
level_in none = none
level_in (some container) = get_element_in_element (codes "Level") container

unfoldable pub find_mode_level_value : Bytes → Nodes → Option Bytes
unfolding get_element_in_element_ptr get_element_in_element
find_mode_level_value container_tag settings =
    level_in (get_element_in_element_ptr container_tag settings)
