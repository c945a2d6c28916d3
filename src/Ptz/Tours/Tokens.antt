-- ===== src/Ptz/Tours/Tokens.antt =====
-- The tokens of new tours: `tours_next_number` of src/ptz_service.c gives one that no tour has.
use thingino_onvif.Base.Int.{ℤ, pos, ◌≤ℤ◌, ◌<ℤ◌}
use thingino_onvif.Base.{
  ℕ, ◌^◌, ◌<◌, List, [], ◌∷◌, ◌++◌, ◌≡◌, refl, ap, ◌∙◌, arith, Option, none, some, Bytes, equal,
  equal_iff, length-append, Bool-cases, inl, inr,
}
use thingino_onvif.Ptz.Numbers.{take-id, print-length, number_behind-print}
use thingino_onvif.Ptz.Tours.View.{view}
use thingino_onvif.Ptz.Tours.{
  Tour, token_prefix, tour_number, tour_token, highest_number, next_tour_number, higher,
}
use thingino_onvif.Text.Decimal.{print}

tour_token_whole : (n : ℕ) → n < 2 ^ 31 → tour_token n ≡ token_prefix ++ print n
tour_token_whole n h =
    take-id 63 (token_prefix ++ print n)
      (omega (arith, length-append token_prefix (print n), print-length n h))

tour_number-print : (n : ℕ) → n < 2 ^ 31 → tour_number (token_prefix ++ print n) ≡ some (pos n)
unfolding tour_number
tour_number-print = number_behind-print token_prefix

-- The number of a token that was made from a number.
tour_number-tour_token : (n : ℕ) → n < 2 ^ 31 → tour_number (tour_token n) ≡ some (pos n)
tour_number-tour_token n h = ap tour_number (tour_token_whole n h) ∙ tour_number-print n h

higher-le : (m : ℤ) (o : Option ℤ) → m ≤ℤ higher m o
higher-le m none = omega arith
higher-le m (some n) = ground arith

higher_reaches : (m n : ℤ) → n ≤ℤ higher m (some n)
higher_reaches m n = ground arith

highest_number-le : (m : ℤ) (ts : List Tour) → m ≤ℤ highest_number m ts
unfolding highest_number
highest_number-le m [] = omega arith
highest_number-le m (t ∷ ts) = omega (
  arith,
  higher-le m (tour_number t.token),
  highest_number-le (higher m (tour_number t.token)) ts,
)

-- A token with a number above the highest one belongs to no tour.
highest_number-absent :
    (m n : ℤ) (ts : List Tour) (token : Bytes)
    → tour_number token ≡ some n
    → highest_number m ts <ℤ n
    → view ts token ≡ none
unfolding highest_number view
highest_number-absent m n [] token e h = refl
highest_number-absent m n (t ∷ ts) token e h = elim (Bool-cases (equal t.token token)) [
  | inl same ↦
      let own : tour_number t.token ≡ some n =
        ap tour_number ((equal_iff t.token token).0 same) ∙ e in
      let bound : highest_number (higher m (some n)) ts <ℤ n = rw own at h in
      absurd (omega (arith, higher_reaches m n, highest_number-le (higher m (some n)) ts))
  | inr other ↦
      ground (arith, highest_number-absent (higher m (tour_number t.token)) n ts token e h)
]

-- The token of the next tour is the token of none.
pub tour_token-absent :
    (ts : List Tour)
    → next_tour_number ts < 2 ^ 31
    → view ts (tour_token (next_tour_number ts)) ≡ none
unfolding next_tour_number
tour_token-absent ts h =
    highest_number-absent (pos 0) (pos (next_tour_number ts)) ts (tour_token (next_tour_number ts))
      (tour_number-tour_token (next_tour_number ts) h) (omega arith)
