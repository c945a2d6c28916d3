-- ===== src/Xml/Walk.antt =====
-- The searches of the mxml library as its documentation describes them: the nodes below one, in the order
-- of the document.
use thingino_onvif.Base.{List, [], ◌∷◌, ◌++◌, equal}
use thingino_onvif.Xml.{Nodes, end, element, text, other, first_child}
use thingino_onvif.Xml.Pointer.{Mxml, first_with}

abbrev walk_all : Nodes → List Nodes
walk_all end = []
walk_all (element x kids next) = element x kids next ∷ (walk_all kids ++ walk_all next)
walk_all (text s next) = text s next ∷ walk_all next
walk_all (other next) = other next ∷ walk_all next

abbrev pub plain : Mxml
plain = record {
  find_element = λ n name. first_with (λ x. equal x name) (walk_all (first_child n));
  walk = λ n. walk_all (first_child n);
}
