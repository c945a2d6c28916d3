-- ===== src/Text/Decimal.antt =====
-- `%d` of the printf family, and the number readers of the C library that the source calls.
pub mod RoundTrip
use thingino_onvif.Base.Int.{ℤ, pos, negsuc, pos_part, sub_ℕ, ltb_ℤ, wrap32}
use thingino_onvif.Base.{
  ℕ, zero, suc, ◌+◌, ◌-◌, ◌*◌, ◌/◌, ◌%◌, ◌^◌, Bool, true, false, ◌&&◌, ◌||◌, List, [], ◌∷◌, Option,
  none, some, leb, ltb, ◌==◌, if◌then◌else◌, Bytes,
}

unfoldable pub is_digit : ℕ → Bool
is_digit c = leb b'0' c && leb c b'9'

-- `isspace` in the C locale.
unfoldable pub is_space : ℕ → Bool
is_space c = c == b' ' || leb 9 c && leb c 13

-- The digits of `n` in front of `out`; the fuel is one more than `n`, and a number has fewer digits.
unfoldable pub print_onto : ℕ → ℕ → Bytes → Bytes
print_onto zero n out = out
print_onto (suc fuel) n out =
    let d = b'0' + n % 10 in
    let more = print_onto fuel (n / 10) (d ∷ out) in if ltb n 10 then d ∷ out else more

unfoldable pub print : ℕ → Bytes
unfolding print_onto
print n = print_onto (suc n) n []

-- The value of the leading digits behind `n`, and the bytes after them.
unfoldable pub read_digits : ℕ → Bytes → ℕ × Bytes
unfolding is_digit
read_digits n [] = (n, [])
read_digits n (c ∷ s) =
    let more = read_digits (n * 10 + (c - b'0')) s in if is_digit c then more else (n, c ∷ s)

unfoldable pub skip_space : Bytes → Bytes
unfolding is_space
skip_space [] = []
skip_space (c ∷ s) = let more = skip_space s in if is_space c then more else c ∷ s

-- `%d` behind the sign: at least one digit is wanted.
unfoldable pub scan_unsigned : Bool → Bytes → Option (ℤ × Bytes)
unfolding read_digits
scan_unsigned negative [] = none
scan_unsigned negative (c ∷ s) =
    let (n, rest) = read_digits 0 (c ∷ s) in
    if is_digit c then some ((if negative then sub_ℕ 0 n else pos n), rest) else none

unfoldable pub scan_signed : Bytes → Option (ℤ × Bytes)
unfolding scan_unsigned
scan_signed [] = none
scan_signed (c ∷ s) =
    if c == b'-'
    then scan_unsigned true s
    else if c == b'+'
    then scan_unsigned false s
    else scan_unsigned false (c ∷ s)

-- `%d` of `sscanf`: white space, a sign, digits. The number is exact; C leaves open what a number
-- beyond the range of `int` becomes.
unfoldable pub scan_int : Bytes → Option (ℤ × Bytes)
unfolding skip_space scan_signed
scan_int s = scan_signed (skip_space s)

abbrev value_or_zero : Option (ℤ × Bytes) → ℤ
value_or_zero none = pos 0
value_or_zero (some (n, rest)) = n

-- What a `long` of 64 bits holds: a number beyond it becomes its last one.
unfoldable pub clamp_long : ℤ → ℤ
clamp_long n =
    if ltb_ℤ (pos (2 ^ 63 - 1)) n
    then pos (2 ^ 63 - 1)
    else if ltb_ℤ n (negsuc (2 ^ 63 - 1))
    then negsuc (2 ^ 63 - 1)
    else n

-- `strtol` in base 10; its `errno` is not modelled here.
unfoldable pub strtol : Bytes → ℤ
unfolding scan_int clamp_long
strtol s = clamp_long (value_or_zero (scan_int s))

-- `atoi`, which is `strtol` cut to an `int`.
unfoldable pub atoi : Bytes → ℤ
unfolding strtol wrap32
atoi s = wrap32 (strtol s)
