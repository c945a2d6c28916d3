-- ===== src/Text/Html.antt =====
-- `html_escape` of src/utils.c. The result -1 is `none`; the text is rewritten in place otherwise.
pub mod Escaped
use thingino_onvif.Base.{
  ℕ, zero, suc, ◌+◌, ◌-◌, Bool, true, false, List, [], ◌∷◌, ◌++◌, Option, none, some, ◌==◌, ltb,
  if◌then◌else◌, Bytes, codes, length,
}

-- The bytes that an escape adds to a character.
unfoldable pub extra : ℕ → ℕ
extra c =
    if c == b'"'
    then 5
    else if c == b'&'
    then 4
    else if c == b'\''
    then 4
    else if c == b'<'
    then 3
    else if c == b'>'
    then 3
    else 0

unfoldable pub count_extra : Bytes → ℕ
unfolding extra
count_extra [] = 0
count_extra (c ∷ s) = extra c + count_extra s

-- What is written for a character at position `t`, with its fallbacks where there is no room.
unfoldable pub escape_at : ℕ → ℕ → ℕ → Bytes
escape_at max_len t c =
    if c == b'"'
    then (if ltb (t + 6) max_len then codes "&quot;" else c ∷ [])
    else if c == b'&'
    then (if ltb (t + 5) max_len then codes "&amp;" else c ∷ [])
    else if c == b'\''
    then (if ltb (t + 5) max_len then codes "&#39;" else c ∷ [])
    else if c == b'<'
    then (if ltb (t + 4) max_len then codes "&lt;" else c ∷ [])
    else if c == b'>'
    then (if ltb (t + 4) max_len then codes "&gt;" else c ∷ [])
    else c ∷ []

-- The loop, which leaves ten bytes free.
unfoldable pub escape_onto : ℕ → Bytes → Bytes → Bytes
unfolding escape_at
escape_onto max_len out [] = out
escape_onto max_len out (c ∷ s) =
    let more = escape_onto max_len (out ++ escape_at max_len (length out) c) s in
    if ltb (length out + 10) max_len then more else out

unfoldable pub html_escape : ℕ → Bytes → Option Bytes
unfolding count_extra escape_onto
html_escape max_len url =
    if ltb max_len (length url + count_extra url + 1)
    then none
    else some (escape_onto max_len [] url)
