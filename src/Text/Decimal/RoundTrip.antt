-- ===== src/Text/Decimal/RoundTrip.antt =====
-- A printed number is made of digits, and reads back as itself.
use thingino_onvif.Base.Int.{pos, wrap32_id}
use thingino_onvif.Base.{
  ℕ, zero, suc, ◌+◌, ◌-◌, ◌*◌, ◌/◌, ◌%◌, ◌^◌, ◌<◌, true, false, [], ◌∷◌, ◌++◌, some, ◌≡◌, ◌≢◌, refl,
  ◌∙◌, arith, Bytes, All, append-nil, Bool-cases, ltb, inl, inr,
}
use thingino_onvif.Text.Decimal.{
  is_digit, is_space, print_onto, print, read_digits, skip_space, scan_unsigned, scan_signed,
  scan_int, clamp_long, strtol, atoi,
}

-- What follows a number does not begin with a digit.
abbrev pub Stops : Bytes → Type 0
Stops [] = Unit {0}
Stops (c ∷ s) = is_digit c ≡ false

pub print_onto-append :
    (f n : ℕ) (out rest : Bytes) → print_onto f n out ++ rest ≡ print_onto f n (out ++ rest)
unfolding print_onto
print_onto-append zero n out rest = refl
print_onto-append (suc f) n out rest =
    ground (arith, print_onto-append f (n / 10) ((b'0' + n % 10) ∷ out) rest)

read_digits_last :
    (m k : ℕ) (out : Bytes) → m ≡ k / 10 → read_digits m ((b'0' + k % 10) ∷ out) ≡ read_digits k out
unfolding read_digits is_digit
read_digits_last m k out e =
    let digit : m * 10 + (b'0' + k % 10 - b'0') ≡ k = omega arith in rw digit (ground arith)

pub read_digits-print_onto :
    (f n : ℕ) (out : Bytes) → n < f → read_digits 0 (print_onto f n out) ≡ read_digits n out
unfolding print_onto
read_digits-print_onto zero n out h = elim h [ ]
read_digits-print_onto (suc f) n out h = elim (Bool-cases (ltb n 10)) [
  | inl small ↦ rw small (read_digits_last 0 n out (ground arith))
  | inr large ↦ rw large (
      read_digits-print_onto f (n / 10) ((b'0' + n % 10) ∷ out) (ground arith)
      ∙ read_digits_last (n / 10) n out refl)
]

abbrev pub IsDigit : ℕ → Type 0
IsDigit c = is_digit c ≡ true

last_IsDigit : (n : ℕ) → IsDigit (b'0' + n % 10)
unfolding is_digit
last_IsDigit n = ground arith

print_onto-IsDigit : (f n : ℕ) (out : Bytes) → All IsDigit out → All IsDigit (print_onto f n out)
unfolding print_onto
print_onto-IsDigit zero n out h = h
print_onto-IsDigit (suc f) n out h = ground (
  arith,
  last_IsDigit n,
  print_onto-IsDigit f (n / 10) ((b'0' + n % 10) ∷ out) (last_IsDigit n, h),
)

print_onto-ne-nil : (f n : ℕ) (out : Bytes) → n < f → print_onto f n out ≢ []
unfolding print_onto
print_onto-ne-nil zero n out h = elim h [ ]
print_onto-ne-nil (suc f) n out h =
    ground (arith, print_onto-ne-nil f (n / 10) ((b'0' + n % 10) ∷ out))

-- A printed number is digits only.
pub print-IsDigit : (n : ℕ) → All IsDigit (print n)
unfolding print
print-IsDigit n = print_onto-IsDigit (suc n) n [] tt

pub print-ne-nil : (n : ℕ) → print n ≢ []
unfolding print
print-ne-nil n = print_onto-ne-nil (suc n) n [] (omega arith)

-- The readers at a text that begins with digits.
scan_signed_digits :
    (s : Bytes)
    → s ≢ []
    → (c : ℕ) (t : Bytes) → s ≡ c ∷ t
    → IsDigit c
    → scan_int s ≡ some (pos (read_digits 0 s).0, (read_digits 0 s).1)
unfolding scan_int skip_space is_digit is_space scan_signed scan_unsigned
scan_signed_digits s ne c t e d = rw e (ground arith)

read_digits_stop : (n : ℕ) (rest : Bytes) → Stops rest → read_digits n rest ≡ (n, rest)
unfolding read_digits
read_digits_stop n [] h = refl
read_digits_stop n (c ∷ rest) h = ground arith

scan_int_headed :
    (p rest : Bytes)
    → p ≢ []
    → All IsDigit p
    → scan_int (p ++ rest) ≡ some (pos (read_digits 0 (p ++ rest)).0, (read_digits 0 (p ++ rest)).1)
scan_int_headed [] rest ne h = absurd (ne refl)
scan_int_headed (c ∷ p) rest ne (d, h) =
    scan_signed_digits (c ∷ (p ++ rest)) (cc) c (p ++ rest) refl d

-- Reading a printed number gives it back, with the text behind it, if that does not begin with a
-- digit.
pub scan_int-print :
    (n : ℕ) (rest : Bytes) → Stops rest → scan_int (print n ++ rest) ≡ some (pos n, rest)
scan_int-print n rest h =
    let read : read_digits 0 (print n ++ rest) ≡ (n, rest) = whole in
    scan_int_headed (print n) rest (print-ne-nil n) (print-IsDigit n) ∙ rw read
  where
    whole : read_digits 0 (print n ++ rest) ≡ (n, rest)
    whole =
        unfold print in
        rw (print_onto-append (suc n) n [] rest)
          (read_digits-print_onto (suc n) n rest (omega arith) ∙ read_digits_stop n rest h)

clamp_long_id : (n : ℕ) → n < 2 ^ 31 → clamp_long (pos n) ≡ pos n
unfolding clamp_long
clamp_long_id n h = ground arith

pub strtol-print : (n : ℕ) → n < 2 ^ 31 → strtol (print n) ≡ pos n
unfolding strtol
strtol-print n h =
    let read : scan_int (print n) ≡ some (pos n, []) = rw append-nil at (scan_int-print n [] tt) in
    rw read (clamp_long_id n h)

pub atoi-print : (n : ℕ) → n < 2 ^ 31 → atoi (print n) ≡ pos n
unfolding atoi
atoi-print n h = rw (strtol-print n h) (wrap32_id (pos n) (omega arith) (omega arith))
