-- ===== src/Text/Html/Escaped.antt =====
-- What html_escape leaves: the escaped text, or a part of it near the end of the buffer.
use thingino_onvif.Base.{
  ℕ, ◌+◌, ◌<◌, ◌≤◌, [], ◌∷◌, ◌++◌, some, ◌≡◌, ◌⊎◌, inl, inr, refl, ◌∙◌, arith, ltb, ◌==◌,
  if◌then◌else◌, Bytes, codes, length, length-append, append_assoc, Bool-cases, some-eq_inj, All,
}
use thingino_onvif.Text.Html.{extra, count_extra, escape_at, escape_onto, html_escape}

-- The escape of a character, where there is room.
unfoldable pub escaped_char : ℕ → Bytes
escaped_char c =
    if c == b'"'
    then codes "&quot;"
    else if c == b'&'
    then codes "&amp;"
    else if c == b'\''
    then codes "&#39;"
    else if c == b'<'
    then codes "&lt;"
    else if c == b'>'
    then codes "&gt;"
    else c ∷ []

-- The whole text escaped.
unfoldable pub escaped : Bytes → Bytes
unfolding escaped_char
escaped [] = []
escaped (c ∷ s) = escaped_char c ++ escaped s

escape_at_room : (max_len t c : ℕ) → t + 10 < max_len → escape_at max_len t c ≡ escaped_char c
unfolding escape_at escaped_char
escape_at_room max_len t c h = ground arith

length-escaped_char : (c : ℕ) → length (escaped_char c) ≤ 6
unfolding escaped_char
length-escaped_char c = ground arith

-- The loop from position `out` on.
escape_onto-escaped :
    (max_len : ℕ) (s out : Bytes)
    → length out < max_len
    → (rest : Bytes) × (escape_onto max_len out s ++ escaped rest ≡ out ++ escaped s)
      × (length (escape_onto max_len out s) < max_len)
      × ((rest ≡ []) ⊎ (max_len ≤ length (escape_onto max_len out s) + 10))
unfolding escape_onto escaped
escape_onto-escaped max_len [] out h = ([], refl, h, inl refl)
escape_onto-escaped max_len (c ∷ s) out h = elim (Bool-cases (ltb (length out + 10) max_len)) [
  | inl room ↦
      let free : length out + 10 < max_len = ground arith in
      let same = escape_at_room max_len (length out) c free in
      let short : length (out ++ escaped_char c) < max_len =
        omega (arith, length-append out (escaped_char c), length-escaped_char c) in
      let (rest, whole, fits, why) = escape_onto-escaped max_len s (out ++ escaped_char c) short in
      (
        rest,
        rw (room, same) (whole ∙ append_assoc out (escaped_char c) (escaped s)),
        rw (room, same) fits,
        rw (room, same) why,
      )
  | inr full ↦ (c ∷ s, rw full refl, rw full h, rw full (inr (ground arith)))
]

-- When html_escape succeeds, its result with the escape of some rest behind it is the escape of the
-- text. The result fits the buffer with its final zero byte, and there is no rest unless the result
-- comes within ten bytes of the buffer's end.
pub html_escape-escaped :
    (max_len : ℕ) (url out : Bytes)
    → html_escape max_len url ≡ some out
    → (rest : Bytes) × (out ++ escaped rest ≡ escaped url)
      × (length out < max_len)
      × ((rest ≡ []) ⊎ (max_len ≤ length out + 10))
unfolding html_escape
html_escape-escaped max_len url out h =
    elim (Bool-cases (ltb max_len (length url + count_extra url + 1))) [
      | inl long ↦ absurd (cc (rw long at h))
      | inr fits ↦
          let some_room : 0 < max_len = ground arith in
          let same : escape_onto max_len [] url ≡ out = some-eq_inj (rw fits at h) in
          rw (← same) (escape_onto-escaped max_len url [] some_room)
    ]

escape_at_plain : (max_len t c : ℕ) → extra c ≡ 0 → escape_at max_len t c ≡ c ∷ []
unfolding escape_at extra
escape_at_plain max_len t c h = ground arith

count_extra_plain : (s : Bytes) → All (λ c. extra c ≡ 0) s → count_extra s ≡ 0
unfolding count_extra
count_extra_plain [] h = refl
count_extra_plain (c ∷ s) (hc, h) = omega (arith, count_extra_plain s h)

escape_onto_plain :
    (max_len : ℕ) (s out : Bytes)
    → All (λ c. extra c ≡ 0) s
    → length out + 10 ≤ max_len
    → length (escape_onto max_len out s) + 10 ≤ max_len
unfolding escape_onto
escape_onto_plain max_len [] out h room = room
escape_onto_plain max_len (c ∷ s) out (hc, h) room =
    elim (Bool-cases (ltb (length out + 10) max_len)) [
      | inl free ↦
          let plain = escape_at_plain max_len (length out) c hc in
          let next : length (out ++ c ∷ []) + 10 ≤ max_len =
            (let below : length out + 10 < max_len = ground arith in
              omega (arith, length-append out (c ∷ []))) in
          rw (free, plain) (escape_onto_plain max_len s (out ++ c ∷ []) h next)
      | inr full ↦ rw full room
    ]

-- A text without characters to escape, which fits the buffer with its final zero byte but not with
-- ten bytes more, is accepted by html_escape and comes out shorter, if the buffer has ten bytes at
-- least.
pub html_escape_cuts :
    (max_len : ℕ) (url : Bytes)
    → All (λ c. extra c ≡ 0) url
    → 10 ≤ max_len
    → length url < max_len
    → max_len < length url + 10
    → (out : Bytes) × (html_escape max_len url ≡ some out) × (length out < length url)
unfolding html_escape
html_escape_cuts max_len url plain room fits tight =
    let short = escape_onto_plain max_len url [] plain (omega arith) in
    let none_extra = count_extra_plain url plain in
    (escape_onto max_len [] url, rw none_extra (ground arith), omega (arith, short))
