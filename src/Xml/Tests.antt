-- ===== src/Xml/Tests.antt =====
-- Concrete requests.
use thingino_onvif.Base.{true, false, [], none, some, ◌≡◌, refl, codes}
use thingino_onvif.Xml.{
  Nodes, end, element, text, other, get_element, is_element, from_first, first_child, ends_with,
}
use thingino_onvif.Xml.Search.{
  elements, find_named, request, get_element-find_named, get_element_header_to_body,
}

-- A header with an address, and a body with a profile.
abbrev header : Nodes
header = element (codes "a:To") (text (codes "urn") end) end

abbrev body : Nodes
body =
    element (codes "tptz:Stop")
      (other (element (codes "tptz:ProfileToken") (text (codes "P0") end) end)) end

abbrev root : Nodes
root =
    element (codes "s:Envelope")
      (text (codes " ") (element (codes "s:Header") header (element (codes "s:Body") body end))) end

get_element_profile :
    get_element (record { root = root; has_parent = false }) (codes "ProfileToken") (codes "Body")
    ≡ some (codes "P0")
unfolding get_element
get_element_profile = refl

-- An element without a text has the empty one.
get_element_empty :
    get_element (record { root = root; has_parent = false }) (codes "Stop") (codes "Body") ≡ some []
unfolding get_element
get_element_empty = refl

get_element_only_header :
    get_element (record { root = root; has_parent = false }) (codes "To") (codes "Body") ≡ none
unfolding get_element
get_element_only_header = refl

get_element-find_named_example :
    get_element (record { root = root; has_parent = false }) (codes "ProfileToken") (codes "Body")
    ≡ find_named (codes "ProfileToken") (elements (from_first (codes "Body") (first_child root)))
get_element-find_named_example = get_element-find_named root (codes "ProfileToken") (codes "Body")

is_header : ends_with (codes "Header") (codes "s:Header") ≡ true
unfolding ends_with
is_header = refl

not_body : ends_with (codes "Body") (codes "s:Header") ≡ false
unfolding ends_with
not_body = refl

is_body : ends_with (codes "Body") (codes "s:Body") ≡ true
unfolding ends_with
is_body = refl

not_in_header :
    find_named (codes "ProfileToken") (elements (element (codes "s:Header") header end)) ≡ none
unfolding is_element
not_in_header = refl

get_element_header_to_body_example :
    get_element
      (request (codes "s:Envelope") (codes "s:Header") (codes "s:Body") header body end)
      (codes "ProfileToken")
      (codes "Header")
    ≡ get_element
        (request (codes "s:Envelope") (codes "s:Header") (codes "s:Body") header body end)
        (codes "ProfileToken")
        (codes "Body")
get_element_header_to_body_example =
    get_element_header_to_body (codes "s:Envelope") (codes "s:Header") (codes "s:Body") header body
      end is_header not_body is_body (codes "ProfileToken") not_in_header
