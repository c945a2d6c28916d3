-- ===== src/Text/Lines.antt =====
-- `fgets` of the C library, as the list of lines that the callers' loops see, and the trimming
-- functions of src/utils.c.
use thingino_onvif.Base.{ℕ, ◌-◌, ◌||◌, List, [], ◌∷◌, ◌++◌, ◌==◌, if◌then◌else◌, Bytes}
use thingino_onvif.Text.Decimal.{is_space, skip_space}

-- Lines of `size + 1` bytes at most, their end included; `room` is what the current one may still take
-- behind the next byte.
unfoldable pub fgets_lines : ℕ → ℕ → Bytes → Bytes → List Bytes
fgets_lines size room [] [] = []
fgets_lines size room [] (d ∷ cur) = (d ∷ cur) ∷ []
fgets_lines size room (c ∷ s) cur =
    let cut = (cur ++ c ∷ []) ∷ fgets_lines size size s [] in
    let more = fgets_lines size (room - 1) s (cur ++ c ∷ []) in
    if c == 10 || room == 0 then cut else more

abbrev blank_or : ℕ → Bytes → Bytes
blank_or c [] = if is_space c then [] else c ∷ []
blank_or c (b ∷ t) = c ∷ (b ∷ t)

-- White space at the end of a text goes. The source reads the byte in front of a text that is blank;
-- here that byte is not white space.
unfoldable pub rtrim : Bytes → Bytes
unfolding is_space
rtrim [] = []
rtrim (c ∷ s) = blank_or c (rtrim s)

unfoldable pub trim : Bytes → Bytes
unfolding rtrim skip_space
trim s = skip_space (rtrim s)
