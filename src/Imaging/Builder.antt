-- ===== src/Imaging/Builder.antt =====
-- The XML builder of src/imaging_service.c, which writes into an array and stops where it is full, and
-- the elements that the reports are made of.
pub mod Cut
use thingino_onvif.Base.{
  ℕ, zero, suc, ◌+◌, ◌-◌, Bool, true, false, ◌&&◌, ◌||◌, List, [], ◌∷◌, ◌++◌, Option, none, some,
  ltb, if◌then◌else◌, Bytes, codes, length, take, ◌==◌, not,
}
use thingino_onvif.Imaging.{Floats, FloatValue, ModeLevel, StringList}

-- `xml_builder_t`: what stands in the array before its final zero byte, and the bytes that remain with
-- that byte; 0 is written by an overflow.
pub record Builder : Type 0 where
  pub written : Bytes
  pub remaining : ℕ

unfoldable pub xml_builder_init : ℕ → Builder
xml_builder_init buffer_len = record { written = []; remaining = buffer_len }

-- `piece` is what the format prints.
unfoldable pub xml_builder_append : Builder → Bytes → Builder
xml_builder_append b piece =
    if b.remaining == 0
    then b
    else if ltb (length piece) b.remaining
    then record { written = b.written ++ piece; remaining = b.remaining - length piece }
    else record { written = b.written ++ take (b.remaining - 1) piece; remaining = 0 }

unfoldable pub append_all : Builder → List Bytes → Builder
unfolding xml_builder_append
append_all b [] = b
append_all b (piece ∷ pieces) = append_all (xml_builder_append b piece) pieces

-- The functions below give the pieces that the source appends, one for each call.
abbrev pub Pieces : Type 0
Pieces = List Bytes

abbrev pub opening : Bytes → Bytes
opening tag = codes "<tt:" ++ (tag ++ codes ">\n")

abbrev pub closing : Bytes → Bytes
closing tag = codes "</tt:" ++ (tag ++ codes ">\n")

abbrev pub element_of : Bytes → Bytes → Bytes
element_of tag value = codes "<tt:" ++ (tag ++ (codes ">" ++ (value ++ closing tag)))

unfoldable pub append_string_element : Bytes → Option Bytes → Pieces
append_string_element tag none = []
append_string_element tag (some []) = []
append_string_element tag (some (c ∷ s)) = element_of tag (c ∷ s) ∷ []

unfoldable pub append_string_list : Bytes → StringList → Pieces
append_string_list tag [] = []
append_string_list tag (none ∷ items) = append_string_list tag items
append_string_list tag (some item ∷ items) = element_of tag item ∷ append_string_list tag items

abbrev pub is_there {ℓ} : {A : Type ℓ} → Option A → Bool
is_there none = false
is_there (some a) = true

abbrev pub is_nonempty {ℓ} : {A : Type ℓ} → List A → Bool
is_nonempty [] = false
is_nonempty (x ∷ xs) = true

-- Whether the range has a range_limit.
abbrev pub has_range : {Float : Type 0} → FloatValue Float → Bool
has_range v = is_there v.min || is_there v.max

abbrev pub any_range : {Float : Type 0} → List (FloatValue Float) → Bool
any_range [] = false
any_range (v ∷ vs) = has_range v || any_range vs

module _ (f : Floats) where
  open f use {Float, print6}

  unfoldable pub append_float_element : Bytes → FloatValue Float → Pieces
  append_float_element tag v = elim v.value [
    | none ↦ []
    | some x ↦ if v.present then element_of tag (print6 x) ∷ [] else []
  ]

  abbrev range_limit : Bytes → Option Float → Pieces
  range_limit tag none = []
  range_limit tag (some x) =
      (codes "<tt:" ++ (tag ++ (codes ">" ++ (print6 x ++ (codes "</tt:" ++ (tag ++ codes ">"))))))
      ∷ []

  unfoldable pub append_float_range : Bytes → FloatValue Float → Pieces
  append_float_range tag v =
      if has_range v
      then opening tag
        ∷ (range_limit (codes "Min") v.min ++ (range_limit (codes "Max") v.max ++ closing tag ∷ []))
      else []

  unfoldable pub append_mode_level_setting : Bytes → ModeLevel Float → Pieces
  unfolding append_string_element append_float_element
  append_mode_level_setting tag config =
      if config.present
      then opening tag
        ∷ (append_string_element (codes "Mode") config.mode
            ++ (append_float_element (codes "Level") config.level ++ closing tag ∷ []))
      else []

  unfoldable pub append_mode_level_options : Bytes → ModeLevel Float → Pieces
  unfolding append_string_list append_float_range
  append_mode_level_options tag config =
      if is_nonempty config.modes || has_range config.level
      then opening tag
        ∷ (append_string_list (codes "Mode") config.modes
            ++ (append_float_range (codes "Level") config.level ++ closing tag ∷ []))
      else []
