-- ===== src/Text/Query.antt =====
-- `get_from_query_string` of src/utils.c. The caller copies `*ret_size` bytes from the pointer that
-- it gets, so the result is that value; the `-1` results are `none`.
pub mod Parameter
use thingino_onvif.Base.{
  ℕ, ◌+◌, Bool, true, false, ◌&&◌, ◌||◌, List, [], ◌∷◌, Option, none, some, ◌==◌, leb,
  if◌then◌else◌, Bytes, codes, ◌≡◌, refl,
}
use thingino_onvif.Text.Tokens.{strtok, strsep}

unfoldable pub to_lower : ℕ → ℕ
to_lower c = if leb b'A' c && leb c b'Z' then c + 32 else c

-- `strcasecmp(a, b) == 0`
unfoldable pub equal_ignoring_case : Bytes → Bytes → Bool
unfolding to_lower
equal_ignoring_case [] [] = true
equal_ignoring_case (x ∷ a) (y ∷ b) = to_lower x == to_lower y && equal_ignoring_case a b
equal_ignoring_case _ _ = false

abbrev pub is_query_sep : ℕ → Bool
is_query_sep c = c == b'&' || c == 10

-- The variable is the first piece between `=`, and its value the second.
unfoldable pub value_of_pair : Bytes → List Bytes → Option Bytes
unfolding equal_ignoring_case
value_of_pair par [] = none
value_of_pair par (var ∷ []) = none
value_of_pair par (var ∷ val ∷ more) = if equal_ignoring_case par var then some val else none

unfoldable pub find_parameter : Bytes → List Bytes → Option Bytes
unfolding value_of_pair strtok
find_parameter par [] = none
find_parameter par (p ∷ ps) = elim (value_of_pair par (strtok b'=' p [])) [
  | none ↦ find_parameter par ps
  | some val ↦ some val
]

unfoldable pub get_from_query_string : Option Bytes → Bytes → Option Bytes
unfolding find_parameter strsep
get_from_query_string none par = none
get_from_query_string (some []) par = none
get_from_query_string (some (c ∷ s)) par = find_parameter par (strsep is_query_sep (c ∷ s) [])

second_parameter :
    get_from_query_string (some (codes "a=1&SUB=42&sub=7")) (codes "sub") ≡ some (codes "42")
unfolding get_from_query_string
second_parameter = refl
