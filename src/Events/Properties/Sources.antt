-- ===== src/Events/Properties/Sources.antt =====
-- The buffers of GetEventProperties and PullMessages for the sources of an event.
use thingino_onvif.Base.{
  ℕ, zero, suc, ◌-◌, ◌<◌, ◌≤◌, List, [], ◌∷◌, ◌++◌, ◌≡◌, refl, sym, ap, ◌∙◌, arith, ltb, Bytes,
  length, length-append, take, append_assoc, append-nil, Bool-cases, inl, inr,
}
use thingino_onvif.Events.Properties.{
  append_pieces, source_pieces, description_pieces, build_event_sources,
  build_event_source_descriptions,
}
use thingino_onvif.Events.State.{EventSource}

abbrev pub concat : List Bytes → Bytes
concat [] = []
concat (piece ∷ pieces) = piece ++ concat pieces

take_whole : (n : ℕ) (s : Bytes) → length s ≤ n → take n s ≡ s
take_whole zero [] h = refl
take_whole zero (c ∷ s) h = absurd (omega arith)
take_whole (suc n) [] h = refl
take_whole (suc n) (c ∷ s) h = ap (◌∷◌ c) (take_whole n s (omega arith))

-- Taking behind a part that is taken whole, and not reaching the last part.
take_between :
    (n : ℕ) (out piece rest : Bytes)
    → length out ≤ n
    → n - length out ≤ length piece
    → take n (out ++ (piece ++ rest)) ≡ out ++ take (n - length out) piece
take_between n [] [] rest h k = let none_left : n ≡ 0 = omega arith in rw none_left refl
take_between zero [] (c ∷ piece) rest h k = refl
take_between (suc n) [] (c ∷ piece) rest h k =
    let whole : suc n - 0 ≡ suc (n - 0) = omega arith in
    rw whole (ap (◌∷◌ c) (take_between n [] piece rest (omega arith) (omega arith)))
take_between zero (c ∷ out) piece rest h k = absurd (omega arith)
take_between (suc n) (c ∷ out) piece rest h k =
    let same : suc n - suc (length out) ≡ n - length out = omega arith in
    rw same (ap (◌∷◌ c) (take_between n out piece rest (omega arith) (omega arith)))

append_pieces-take :
    (size : ℕ) (pieces : List Bytes) (out : Bytes)
    → length out < size
    → append_pieces size out pieces ≡ take (size - 1) (out ++ concat pieces)
unfolding append_pieces
append_pieces-take size [] out h = rw append-nil (sym (take_whole (size - 1) out (omega arith)))
append_pieces-take size (piece ∷ pieces) out h =
    elim (Bool-cases (ltb (length piece) (size - length out))) [
      | inl fits ↦
          let room : length (out ++ piece) < size =
            (let short : length piece < size - length out = ground arith in
              omega (arith, length-append out piece)) in
          rw fits (
            append_pieces-take size pieces (out ++ piece) room
            ∙ ap (take (size - 1)) (append_assoc out piece (concat pieces)))
      | inr cut ↦
          let long : size - length out ≤ length piece = ground arith in
          let same : size - length out - 1 ≡ size - 1 - length out = omega arith in
          rw (cut, same)
            (sym (take_between (size - 1) out piece (concat pieces) (omega arith) (omega arith)))
    ]

-- Into a buffer of at least one byte, both builders write the texts of the sources one behind the
-- other, cut off where only the final zero byte is left room for: no byte is written outside.
pub build_event_sources-take :
    (outlen : ℕ) (sources : List EventSource)
    → 0 < outlen
    → (build_event_sources outlen sources ≡ take (outlen - 1) (concat (source_pieces sources)))
      × (build_event_source_descriptions outlen sources
          ≡ take (outlen - 1) (concat (description_pieces sources)))
unfolding build_event_sources build_event_source_descriptions
build_event_sources-take outlen sources h = (
  append_pieces-take outlen (source_pieces sources) [] h,
  append_pieces-take outlen (description_pieces sources) [] h,
)
