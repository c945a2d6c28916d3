-- ===== src/Xml/Search.antt =====
-- get_element of src/mxml_wrapper.c against the elements in the order of the document.
use thingino_onvif.Base.{
  Bool, true, false, List, [], ◌∷◌, ◌++◌, Option, none, some, if◌then◌else◌, Bytes, codes, ◌≡◌,
  refl, sym, ◌∙◌, arith, Bool-cases, inl, inr, append-nil,
}
use thingino_onvif.Xml.{
  Nodes, end, element, text, other, Document, first_child, first_text, is_element, or_empty,
  ends_with, after_siblings, after_children, get_element_rec, from_first, get_element,
}

-- The names and texts of all elements, in the order in which their tags open.
abbrev pub elements : Nodes → List (Bytes × Bytes)
elements end = []
elements (element x kids next) = (x, or_empty (first_text kids)) ∷ (elements kids ++ elements next)
elements (text s next) = elements next
elements (other next) = elements next

abbrev pub find_named : Bytes → List (Bytes × Bytes) → Option Bytes
find_named name [] = none
find_named name ((x, s) ∷ xs) = if is_element name x then some s else find_named name xs

abbrev pub or_else {ℓ} : {A : Type ℓ} → Option A → Option A → Option A
or_else none b = b
or_else (some a) b = some a

pub find_named-append :
    (name : Bytes) (xs ys : List (Bytes × Bytes))
    → find_named name (xs ++ ys) ≡ or_else (find_named name xs) (find_named name ys)
find_named-append name [] ys = refl
find_named-append name ((x, s) ∷ xs) ys = ground (arith, find_named-append name xs ys)

-- Where the flag is set, nothing was found.
abbrev Agrees : Option Bytes × Bool → Type 0
Agrees r = r.1 ≡ true → r.0 ≡ none

after_siblings_found : (r : Option Bytes × Bool) → Agrees r → (after_siblings r).0 ≡ r.0
unfolding after_siblings
after_siblings_found (ret, true) h = sym (h refl)
after_siblings_found (none, false) h = refl
after_siblings_found (some s, false) h = refl

after_siblings-Agrees : (r : Option Bytes × Bool) → Agrees (after_siblings r)
unfolding after_siblings
after_siblings-Agrees (ret, true) e = refl
after_siblings-Agrees (none, false) e = refl
after_siblings-Agrees (some s, false) e = cc

after_children_found :
    (o : Option Bytes) (r : Option Bytes × Bool) → Agrees r → (after_children o r).0 ≡ or_else o r.0
unfolding after_children
after_children_found none r h = after_siblings_found r h
after_children_found (some s) r h = refl

after_children-Agrees : (o : Option Bytes) (r : Option Bytes × Bool) → Agrees (after_children o r)
unfolding after_children
after_children-Agrees none r = after_siblings-Agrees r
after_children-Agrees (some s) r = λ e. cc

get_element_rec-Agrees : (name : Bytes) (nodes : Nodes) → Agrees (get_element_rec name nodes false)
unfolding get_element_rec
get_element_rec-Agrees name end = λ e. refl
get_element_rec-Agrees name (element x kids next) = elim (Bool-cases (is_element name x)) [
  | inl e ↦ rw e (λ h. cc)
  | inr e ↦
      rw e (
        after_children-Agrees (get_element_rec name kids false).0 (get_element_rec name next false))
]
get_element_rec-Agrees name (text s next) = after_siblings-Agrees _
get_element_rec-Agrees name (other next) = after_siblings-Agrees _

-- The recursion with its flag finds the first element with the name.
pub get_element_rec-find_named :
    (name : Bytes) (nodes : Nodes)
    → (get_element_rec name nodes false).0 ≡ find_named name (elements nodes)
unfolding get_element_rec
get_element_rec-find_named name end = refl
get_element_rec-find_named name (element x kids next) = elim (Bool-cases (is_element name x)) [
  | inl e ↦ rw e
  | inr e ↦
      rw
        (
          e,
          after_children_found _ _ (get_element_rec-Agrees name next),
          get_element_rec-find_named name kids,
          get_element_rec-find_named name next,
        )
        (sym (find_named-append name (elements kids) (elements next)))
]
get_element_rec-find_named name (text s next) =
    after_siblings_found _ (get_element_rec-Agrees name next) ∙ get_element_rec-find_named name next
get_element_rec-find_named name (other next) =
    after_siblings_found _ (get_element_rec-Agrees name next) ∙ get_element_rec-find_named name next

-- In a request without an XML declaration, get_element finds the text of the first element with the
-- name, with or without a prefix, in the order of the document, from the first child of the envelope
-- whose name ends in the one that is given up to the end of the envelope.
pub get_element-find_named :
    (root : Nodes) (name first_node : Bytes)
    → get_element (record { root = root; has_parent = false }) name first_node
      ≡ find_named name (elements (from_first first_node (first_child root)))
unfolding get_element
get_element-find_named root name first_node =
    get_element_rec-find_named name (from_first first_node (first_child root))

-- With a declaration the name of the first node is not looked at: every element of the request is
-- searched, the header's too.
pub get_element_with_declaration :
    (root : Nodes) (name first_node : Bytes)
    → get_element (record { root = root; has_parent = true }) name first_node
      ≡ find_named name (elements root)
unfolding get_element
get_element_with_declaration root name first_node = get_element_rec-find_named name root

-- What stands in front without the name does not change the search.
find_named_behind :
    (name : Bytes) (xs ys : List (Bytes × Bytes))
    → find_named name xs ≡ none
    → find_named name (xs ++ ys) ≡ find_named name ys
find_named_behind name xs ys h = rw (find_named-append name xs ys, h)

-- An envelope in which the header `h` is followed by the body `b`.
abbrev pub request : (envelope h b : Bytes) (header body rest : Nodes) → Document
request envelope h b header body rest = record {
  root = element envelope (element h header (element b body rest)) end;
  has_parent = false;
}

module _ (envelope h b : Bytes) (header body rest : Nodes)
    (is_header : ends_with (codes "Header") h ≡ true)
    (not_body : ends_with (codes "Body") h ≡ false)
    (is_body : ends_with (codes "Body") b ≡ true) where
  abbrev whole : Document
  whole = request envelope h b header body rest

  -- An element that is asked for in the header and is not there is taken from the body behind it.
  pub get_element_header_to_body :
      (name : Bytes)
      → find_named name (elements (element h header end)) ≡ none
      → get_element whole name (codes "Header") ≡ get_element whole name (codes "Body")
  unfolding from_first first_child
  get_element_header_to_body name missing =
      rw
        (
          get_element-find_named whole.root name (codes "Header"),
          get_element-find_named whole.root name (codes "Body"),
          is_header,
          not_body,
          is_body,
        )
        (find_named_behind name ((h, or_empty (first_text header)) ∷ elements header)
          (elements (element b body rest)) (rw (append-nil (elements header)) at missing))
