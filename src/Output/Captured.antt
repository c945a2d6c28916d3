-- ===== src/Output/Captured.antt =====
-- The copy of the output that src/utils.c keeps for the log.
use thingino_onvif.Base.{
  ℕ, zero, suc, ◌+◌, ◌-◌, ◌≤◌, ◌<◌, false, List, [], ◌∷◌, ◌++◌, ◌≡◌, refl, sym, ap, ◌∙◌, arith,
  Bytes, length, take, length-append, length-take, append_assoc, append-nil, Bool-cases, inl, inr,
  ltb, leb,
}
use thingino_onvif.Output.{joined_pieces, response_buffer_append, capture}

module _ {ℓ} {A : Type ℓ} where
  take-append :
      (n : ℕ) (xs ys : List A) → length xs ≤ n → take n (xs ++ ys) ≡ xs ++ take (n - length xs) ys
  take-append n [] ys h = let e : n - 0 ≡ n = omega arith in rw e refl
  take-append zero (x ∷ xs) ys h = absurd (omega arith)
  take-append (suc n) (x ∷ xs) ys h =
      let e : suc n - suc (length xs) ≡ n - length xs = omega arith in
      rw e (ap (◌∷◌ x) (take-append n xs ys (omega arith)))

  take_fitting : (n : ℕ) (xs : List A) → length xs ≤ n → take n xs ≡ xs
  take_fitting zero [] h = refl
  take_fitting zero (x ∷ xs) h = absurd (omega arith)
  take_fitting (suc n) [] h = refl
  take_fitting (suc n) (x ∷ xs) h = ap (◌∷◌ x) (take_fitting n xs (omega arith))

  take-append_take : (n : ℕ) (xs ys : List A) → take n (take n xs ++ ys) ≡ take n (xs ++ ys)
  take-append_take zero xs ys = refl
  take-append_take (suc n) [] ys = refl
  take-append_take (suc n) (x ∷ xs) ys = ap (◌∷◌ x) (take-append_take n xs ys)

-- One piece is taken as far as there is room.
response_buffer_append-take :
    (size : ℕ) (buffer bytes : Bytes)
    → length buffer < size
    → response_buffer_append size buffer bytes ≡ take (size - 1) (buffer ++ bytes)
unfolding response_buffer_append
response_buffer_append-take size buffer bytes h =
    let whole = take_fitting (size - 1) (buffer ++ bytes) in
    let cut = take-append (size - 1) buffer bytes (omega arith) in
    let room : size - length buffer - 1 ≡ size - 1 - length buffer = omega arith in
    let sum = length-append buffer bytes in
    let free : leb size (length buffer) ≡ false = ground arith in
    elim (Bool-cases (ltb (length buffer + length bytes) (size - 1))) [
      | inl fits ↦ rw (free, fits) (sym (whole (ground arith)))
      | inr long ↦ rw (free, long, room) (sym cut)
    ]

capture-from :
    (size : ℕ) (buffer : Bytes) (ps : List Bytes)
    → length buffer < size
    → capture size buffer ps ≡ take (size - 1) (buffer ++ joined_pieces ps)
unfolding capture
capture-from size buffer [] h =
    sym (ap (take (size - 1)) (append-nil buffer) ∙ take_fitting (size - 1) buffer (omega arith))
capture-from size buffer (p ∷ ps) h =
    let step = response_buffer_append-take size buffer p h in
    let within : length (take (size - 1) (buffer ++ p)) < size =
      omega (arith, length-take (size - 1) (buffer ++ p)) in
    ap (λ (b : Bytes). capture size b ps) step
    ∙ (capture-from size (take (size - 1) (buffer ++ p)) ps within
        ∙ (take-append_take (size - 1) (buffer ++ p) (joined_pieces ps)
            ∙ ap (take (size - 1)) (append_assoc buffer p (joined_pieces ps))))

-- The copy of the output is the pieces one behind the other, cut off at the size of the array less the
-- final zero byte.
pub capture-joined_pieces :
    (size : ℕ) (ps : List Bytes)
    → 0 < size
    → capture size [] ps ≡ take (size - 1) (joined_pieces ps)
capture-joined_pieces size ps h = capture-from size [] ps h
