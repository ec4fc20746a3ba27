-- ===== src/Base/Bits.antt =====
-- Facts about single bits of a byte, each checked over all bytes.
use Prim.Native.Nat.{ℕ, zero, suc, ◌-◌, ◌^◌, ◌<◌, bit_and, bit_or}
use mathlib.Core.Path.{◌≡◌, refl}
use mathlib.Core.Bool.{Bool, true, false, not, ◌&&◌, ◌||◌}
use native.Mathlib.Omega.{arith}
use lt_micros.Base.Tests.{◌==◌, ltb}

-- `b & (1 << i)` as a truth value.
unfoldable pub test_bit : ℕ → ℕ → Bool
test_bit b i = not (bit_and b (2 ^ i) == 0)

-- `b |= 1 << i` and `b &= ~(1 << i)` on a byte.
unfoldable pub set_bit : ℕ → ℕ → ℕ
set_bit b i = bit_or b (2 ^ i)

unfoldable pub clear_bit : ℕ → ℕ → ℕ
clear_bit b i = bit_and b (255 - 2 ^ i)

-- Whether a test holds of all numbers below a bound.
unfoldable pub holds_below : (bound : ℕ) → (ℕ → Bool) → Bool
holds_below zero test = true
holds_below (suc last) test = holds_below last test && test last

pub holds_below-at :
    (i bound : ℕ) (test : ℕ → Bool) → i < bound → holds_below bound test ≡ true → test i ≡ true
unfolding holds_below
holds_below-at i zero test below every = absurd (omega arith)
holds_below-at i (suc last) test below every = ground (arith, holds_below-at i last test)

unfoldable pub same : Bool → Bool → Bool
same true b = b
same false b = not b

pub same_sound : (a b : Bool) → same a b ≡ true → a ≡ b
unfolding same
same_sound true b h = ground arith
same_sound false b h = ground arith

-- A law of one byte and two bit numbers, by evaluation.
for_bits : (ℕ → ℕ → ℕ → Bool) → Bool
for_bits p = holds_below 256 λ b. holds_below 8 λ i. holds_below 8 λ j. p b i j

for_bits_sound :
    (p : ℕ → ℕ → ℕ → Bool) (b i j : ℕ)
    → for_bits p ≡ true
    → b < 256
    → i < 8
    → j < 8
    → p b i j ≡ true
unfolding for_bits
for_bits_sound p b i j h hb hi hj =
    holds_below-at j 8 _ hj (holds_below-at i 8 _ hi (holds_below-at b 256 _ hb h))

set_table : for_bits (λ b i j. same (test_bit (set_bit b i) j) ((i == j) || test_bit b j)) ≡ true
unfolding for_bits holds_below same test_bit set_bit
set_table = refl

clear_table :
    for_bits (λ b i j. same (test_bit (clear_bit b i) j) (not (i == j) && test_bit b j)) ≡ true
unfolding for_bits holds_below same test_bit clear_bit
clear_table = refl

range_table : for_bits (λ b i j. ltb (set_bit b i) 256 && ltb (clear_bit b i) 256) ≡ true
unfolding for_bits holds_below set_bit clear_bit
range_table = refl

-- A byte with a clear bit is not 0xFF, and 0xFF has every bit.
full_table :
    for_bits (λ b i j. (test_bit b i || not (b == 255)) && test_bit 255 i && not (test_bit 0 i))
    ≡ true
unfolding for_bits holds_below test_bit
full_table = refl

pub test_bit-set_bit :
    (b i j : ℕ) → b < 256 → i < 8 → j < 8 → test_bit (set_bit b i) j ≡ ((i == j) || test_bit b j)
test_bit-set_bit b i j hb hi hj = same_sound _ _ (for_bits_sound _ b i j set_table hb hi hj)

pub test_bit-clear_bit :
    (b i j : ℕ)
    → b < 256
    → i < 8
    → j < 8
    → test_bit (clear_bit b i) j ≡ (not (i == j) && test_bit b j)
test_bit-clear_bit b i j hb hi hj = same_sound _ _ (for_bits_sound _ b i j clear_table hb hi hj)

pub set_bit-lt : (b i : ℕ) → b < 256 → i < 8 → set_bit b i < 256
set_bit-lt b i hb hi = ground (arith, for_bits_sound _ b i 0 range_table hb hi (omega arith))

pub clear_bit-lt : (b i : ℕ) → b < 256 → i < 8 → clear_bit b i < 256
clear_bit-lt b i hb hi = ground (arith, for_bits_sound _ b i 0 range_table hb hi (omega arith))

pub test_bit_full : (i : ℕ) → i < 8 → test_bit 255 i ≡ true
test_bit_full i hi =
    ground (arith, for_bits_sound _ 0 i 0 full_table (omega arith) hi (omega arith))

pub test_bit_empty : (i : ℕ) → i < 8 → test_bit 0 i ≡ false
test_bit_empty i hi =
    ground (arith, for_bits_sound _ 0 i 0 full_table (omega arith) hi (omega arith))

pub ne_full : (b i : ℕ) → b < 256 → i < 8 → test_bit b i ≡ false → (b == 255) ≡ false
ne_full b i hb hi h = ground (arith, for_bits_sound _ b i 0 full_table hb hi (omega arith))
