-- ===== src/Drivers/Bits.antt =====
-- The 8-bit register operations that the drivers use: `reg |= bit`, `reg &= ~bit` and
-- `(reg & bit) ? 1 : 0`, with their laws over all bytes.
use nsumo_video.Prelude.{
  ltb, ◌==◌, every_below, row_below, ℕ, ◌-◌, ◌^◌, ◌<◌, bit_and, bit_or, ◌≡◌, refl, Bool, true,
  false, not, ◌&&◌, ◌||◌, arith,
}

-- `1 << i`
abbrev pub bit : ℕ → ℕ
bit i = 2 ^ i

-- `reg |= 1 << i`
unfoldable pub set_bit : ℕ → ℕ → ℕ
set_bit reg i = bit_or reg (bit i)

-- `reg &= ~(1 << i)` on a byte
unfoldable pub clear_bit : ℕ → ℕ → ℕ
clear_bit reg i = bit_and reg (255 - bit i)

-- `(reg & (1 << i)) ? 1 : 0`
unfoldable pub test_bit : ℕ → ℕ → Bool
test_bit reg i = not (bit_and reg (bit i) == 0)

abbrev pub iff_test : Bool → Bool → Bool
iff_test true b = b
iff_test false b = not b

pub iff_test_sound : (a b : Bool) → iff_test a b ≡ true → a ≡ b
iff_test_sound true b h = ground arith
iff_test_sound false b h = ground arith

-- What every byte and every two positions must satisfy.
laws_at : ℕ → ℕ → ℕ → Bool
unfolding set_bit clear_bit test_bit
laws_at reg i j =
    iff_test (test_bit (set_bit reg i) j) (i == j || test_bit reg j)
    && iff_test (test_bit (clear_bit reg i) j) (not (i == j) && test_bit reg j)
    && ltb (set_bit reg i) 256
    && ltb (clear_bit reg i) 256

laws_at_table :
    every_below 256 (λ reg. every_below 8 (λ i. every_below 8 (λ j. laws_at reg i j))) ≡ true
unfolding every_below laws_at
laws_at_table = refl

laws_at_all : (reg i j : ℕ) → reg < 256 → i < 8 → j < 8 → laws_at reg i j ≡ true
laws_at_all reg i j h hi hj =
    row_below 8 (λ j. laws_at reg i j) j
      (row_below 8 (λ i. every_below 8 (λ j. laws_at reg i j)) i
        (row_below 256 (λ reg. every_below 8 (λ i. every_below 8 (λ j. laws_at reg i j))) reg
          laws_at_table h)
        hi)
      hj

pub &&-true : (a b : Bool) → (a && b) ≡ true → (a ≡ true) × (b ≡ true)
&&-true a b h = ground arith

pub test_bit-set_bit :
    (reg i j : ℕ)
    → reg < 256
    → i < 8
    → j < 8
    → test_bit (set_bit reg i) j ≡ (i == j || test_bit reg j)
unfolding laws_at
test_bit-set_bit reg i j h hi hj = ground (arith, laws_at_all reg i j h hi hj)

pub test_bit-clear_bit :
    (reg i j : ℕ)
    → reg < 256
    → i < 8
    → j < 8
    → test_bit (clear_bit reg i) j ≡ (not (i == j) && test_bit reg j)
unfolding laws_at
test_bit-clear_bit reg i j h hi hj = ground (arith, laws_at_all reg i j h hi hj)

pub set_bit-lt : (reg i : ℕ) → reg < 256 → i < 8 → set_bit reg i < 256
unfolding laws_at
set_bit-lt reg i h hi = ground (arith, laws_at_all reg i 0 h hi)

pub clear_bit-lt : (reg i : ℕ) → reg < 256 → i < 8 → clear_bit reg i < 256
unfolding laws_at
clear_bit-lt reg i h hi = ground (arith, laws_at_all reg i 0 h hi)
