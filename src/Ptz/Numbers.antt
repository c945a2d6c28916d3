-- ===== src/Ptz/Numbers.antt =====
-- The numbers behind the names of tours and presets in src/ptz_service.c, printed and read.
use thingino_onvif.Base.Int.{pos, wrap32_id}
use thingino_onvif.Base.{
  ℕ, zero, suc, ◌+◌, ◌*◌, ◌/◌, ◌%◌, ◌^◌, ◌<◌, ◌≤◌, [], ◌∷◌, ◌++◌, ◌≡◌, refl, ap, arith, some, Bytes,
  length, take, drop, append-nil,
}
use thingino_onvif.Ptz.{number_behind}
use thingino_onvif.Text.Decimal.RoundTrip.{scan_int-print}
use thingino_onvif.Text.Decimal.{print, print_onto, scan_int}
use thingino_onvif.Text.Prefix.{starts_with-append, drop-append}

abbrev pub power_of_ten : ℕ → ℕ
power_of_ten zero = 1
power_of_ten (suc k) = 10 * power_of_ten k

-- A number below a power of ten has no more digits than the exponent.
print_onto-length :
    (f n k : ℕ) (out : Bytes)
    → n < power_of_ten (suc k)
    → length (print_onto f n out) ≤ suc k + length out
unfolding print_onto
print_onto-length zero n k out h = omega arith
print_onto-length (suc f) n zero out h = ground arith
print_onto-length (suc f) n (suc k) out h =
    ground (arith, print_onto-length f (n / 10) k ((b'0' + n % 10) ∷ out) (omega arith))

-- A number of `k + 1` digits at most.
pub print-length_le : (n k : ℕ) → n < power_of_ten (suc k) → length (print n) ≤ suc k
unfolding print
print-length_le n k h = omega (arith, print_onto-length (suc n) n k [] h)

pub print-length : (n : ℕ) → n < 2 ^ 31 → length (print n) ≤ 10
print-length n h = print-length_le n 9 (omega arith)

power_of_ten_pos : (k : ℕ) → 0 < power_of_ten k
power_of_ten_pos zero = omega arith
power_of_ten_pos (suc k) = omega (arith, power_of_ten_pos k)

print_onto_longer : (f n : ℕ) (out : Bytes) → n < f → length out < length (print_onto f n out)
unfolding print_onto
print_onto_longer zero n out h = elim h [ ]
print_onto_longer (suc f) n out h =
    ground (arith, print_onto_longer f (n / 10) ((b'0' + n % 10) ∷ out))

print_onto-length_gt :
    (f n k : ℕ) (out : Bytes)
    → n < f
    → power_of_ten k ≤ n
    → k + length out < length (print_onto f n out)
unfolding print_onto
print_onto-length_gt zero n k out h low = elim h [ ]
print_onto-length_gt (suc f) n zero out h low = omega (arith, print_onto_longer (suc f) n out h)
print_onto-length_gt (suc f) n (suc k) out h low =
    let p = power_of_ten_pos k in
    ground
      (arith, print_onto-length_gt f (n / 10) k ((b'0' + n % 10) ∷ out) (omega arith) (omega arith))

-- A number with more than `k` digits.
pub print-length_gt : (n k : ℕ) → power_of_ten k ≤ n → k < length (print n)
unfolding print
print-length_gt n k low = omega (arith, print_onto-length_gt (suc n) n k [] (omega arith) low)

pub take-id : (n : ℕ) (s : Bytes) → length s ≤ n → take n s ≡ s
take-id zero [] h = refl
take-id zero (c ∷ s) h = absurd (omega arith)
take-id (suc n) [] h = refl
take-id (suc n) (c ∷ s) h = ap (◌∷◌ c) (take-id n s (omega arith))

-- A number that was printed behind a prefix is read back.
pub number_behind-print :
    (prefix : Bytes) (n : ℕ) → n < 2 ^ 31 → number_behind prefix (prefix ++ print n) ≡ some (pos n)
unfolding number_behind
number_behind-print prefix n h =
    let read : scan_int (drop (length prefix) (prefix ++ print n)) ≡ some (pos n, []) =
      rw (drop-append prefix (print n)) (rw append-nil at (scan_int-print n [] tt)) in
    rw (starts_with-append prefix (print n))
      (rw (read, number_behind) (ap some (wrap32_id (pos n) (omega arith) (omega arith))))
