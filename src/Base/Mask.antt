-- ===== src/Base/Mask.antt =====
-- 32-bit masks: `m & (1 << j)`, `m |= (1 << j)` and `m &= ~(1 << j)`, by recursion on the shift.
use Prim.Native.Nat.{ℕ, zero, suc, ◌+◌, ◌*◌, ◌/◌, ◌%◌, ◌^◌, bit_or}
use mathlib.Core.Bool.{Bool, true, false}
use mathlib.Core.Logic.{◌≢◌}
use mathlib.Core.Path.{◌≡◌, refl, ap}
use native.Mathlib.Omega.{arith}
use thingino_onvif.Base.Tests.{◌==◌}

unfoldable pub test_bit : ℕ → ℕ → Bool
test_bit m zero = m % 2 == 1
test_bit m (suc j) = test_bit (m / 2) j

unfoldable pub set_bit : ℕ → ℕ → ℕ
set_bit m zero = m / 2 * 2 + 1
set_bit m (suc j) = set_bit (m / 2) j * 2 + m % 2

unfoldable pub clear_bit : ℕ → ℕ → ℕ
clear_bit m zero = m / 2 * 2
clear_bit m (suc j) = clear_bit (m / 2) j * 2 + m % 2

tail_set : (m k : ℕ) → (k * 2 + m % 2) / 2 ≡ k
tail_set m k = omega arith

pub test_bit-set_bit_self : (m j : ℕ) → test_bit (set_bit m j) j ≡ true
unfolding test_bit set_bit
test_bit-set_bit_self m zero = ground arith
test_bit-set_bit_self m (suc j) =
    rw (tail_set m (set_bit (m / 2) j)) (test_bit-set_bit_self (m / 2) j)

pub test_bit-set_bit_ne : (m j k : ℕ) → j ≢ k → test_bit (set_bit m j) k ≡ test_bit m k
unfolding test_bit set_bit
test_bit-set_bit_ne m zero zero h = absurd (h refl)
test_bit-set_bit_ne m zero (suc k) h = rw (halved m)
  where
    halved : (m : ℕ) → (m / 2 * 2 + 1) / 2 ≡ m / 2
    halved m = omega arith
test_bit-set_bit_ne m (suc j) zero h = ground arith
test_bit-set_bit_ne m (suc j) (suc k) h =
    rw (tail_set m (set_bit (m / 2) j)) (test_bit-set_bit_ne (m / 2) j k (λ e. h (ap suc e)))

pub test_bit-clear_bit_self : (m j : ℕ) → test_bit (clear_bit m j) j ≡ false
unfolding test_bit clear_bit
test_bit-clear_bit_self m zero = ground arith
test_bit-clear_bit_self m (suc j) =
    rw (tail_set m (clear_bit (m / 2) j)) (test_bit-clear_bit_self (m / 2) j)

pub test_bit-clear_bit_ne : (m j k : ℕ) → j ≢ k → test_bit (clear_bit m j) k ≡ test_bit m k
unfolding test_bit clear_bit
test_bit-clear_bit_ne m zero zero h = absurd (h refl)
test_bit-clear_bit_ne m zero (suc k) h = rw (halved m)
  where
    halved : (m : ℕ) → m / 2 * 2 / 2 ≡ m / 2
    halved m = omega arith
test_bit-clear_bit_ne m (suc j) zero h = ground arith
test_bit-clear_bit_ne m (suc j) (suc k) h =
    rw (tail_set m (clear_bit (m / 2) j)) (test_bit-clear_bit_ne (m / 2) j k (λ e. h (ap suc e)))

-- These are the machine's operations.
set_bit_is_or : (set_bit 5 3 ≡ bit_or 5 (2 ^ 3)) × (set_bit 13 3 ≡ bit_or 13 (2 ^ 3))
unfolding set_bit
set_bit_is_or = (refl, refl)
