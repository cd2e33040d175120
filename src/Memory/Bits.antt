-- ===== src/Memory/Bits.antt =====
-- The bits of a byte, by tables: `b & (1 << j)`, `b |= 1 << j` and `b &= ~(1 << j)`.
use Prim.Native.Nat.{bit_and, bit_or, bit_and-bitwise}
use bayos_kernel.Common.{
  covered, covered_at, ℕ, ◌-◌, ◌^◌, ◌<◌, ◌≡◌, refl, Bool, true, false, not, ◌&&◌, ◌||◌, arith, ltb,
  ◌==◌,
}

unfoldable pub bit_at : ℕ → ℕ → Bool
bit_at b j = not (bit_and b (2 ^ j) == 0)

unfoldable pub set_bit : ℕ → ℕ → ℕ
set_bit b j = bit_or b (2 ^ j)

-- `~(1 << j)` is an `int`; the conversion to `uint8_t` leaves its low byte.
unfoldable pub clear_bit : ℕ → ℕ → ℕ
clear_bit b j = bit_and b (255 - 2 ^ j)

same : Bool → Bool → Bool
same true b = b
same false b = not b

same_eq : (a b : Bool) → same a b ≡ true → a ≡ b
unfolding same
same_eq true b h = ground arith
same_eq false b h = ground arith

set_test : ℕ → ℕ → ℕ → Bool
set_test b j k = same (bit_at (set_bit b j) k) (j == k || bit_at b k)

clear_test : ℕ → ℕ → ℕ → Bool
clear_test b j k = same (bit_at (clear_bit b j) k) (not (j == k) && bit_at b k)

byte_test : ℕ → ℕ → Bool
byte_test b j =
    ltb (set_bit b j) 256
    && ltb (clear_bit b j) 256
    && (bit_at b j || clear_bit (set_bit b j) j == b)

-- the tests of a byte and a bit, and of the other bits beside it
bit_row : ℕ → ℕ → Bool
bit_row b j = byte_test b j && covered (λ k. set_test b j k && clear_test b j k) 8

table : covered (λ b. covered (λ j. bit_row b j) 8) 256 ≡ true
unfolding covered same set_test clear_test byte_test bit_row bit_at set_bit clear_bit
table = refl

both : (a b : Bool) → (a && b) ≡ true → (a ≡ true) × (b ≡ true)
both a b h = ground arith

row : (b j : ℕ) → b < 256 → j < 8 → bit_row b j ≡ true
row b j hb hj =
    covered_at (λ j. bit_row b j) 8 j hj
      (covered_at (λ b. covered (λ j. bit_row b j) 8) 256 b hb table)

byte_row : (b j : ℕ) → b < 256 → j < 8 → byte_test b j ≡ true
unfolding bit_row
byte_row b j hb hj = (both (byte_test b j) _ (row b j hb hj)).0

entry : (b j k : ℕ) → b < 256 → j < 8 → k < 8 → (set_test b j k ≡ true) × (clear_test b j k ≡ true)
unfolding bit_row
entry b j k hb hj hk = both (set_test b j k) (clear_test b j k) (
    covered_at (λ k. set_test b j k && clear_test b j k) 8 k hk
      (both (byte_test b j) _ (row b j hb hj)).1)

-- One bit is set or cleared, and the other seven keep their values.
pub bit_at-set_bit :
    (b j k : ℕ) → b < 256 → j < 8 → k < 8 → bit_at (set_bit b j) k ≡ (j == k || bit_at b k)
unfolding set_test
bit_at-set_bit b j k hb hj hk = same_eq _ _ (entry b j k hb hj hk).0

pub bit_at-clear_bit :
    (b j k : ℕ) → b < 256 → j < 8 → k < 8 → bit_at (clear_bit b j) k ≡ (not (j == k) && bit_at b k)
unfolding clear_test
bit_at-clear_bit b j k hb hj hk = same_eq _ _ (entry b j k hb hj hk).1

pub byte_bounds : (b j : ℕ) → b < 256 → j < 8 → (set_bit b j < 256) × (clear_bit b j < 256)
unfolding byte_test
byte_bounds b j hb hj = ground (arith, byte_row b j hb hj)

-- Clearing undoes setting.
pub clear_bit-set_bit :
    (b j : ℕ) → b < 256 → j < 8 → bit_at b j ≡ false → clear_bit (set_bit b j) j ≡ b
unfolding byte_test
clear_bit-set_bit b j hb hj h = ground (arith, byte_row b j hb hj)

pub bit_at_zero : (j : ℕ) → bit_at 0 j ≡ false
unfolding bit_at
bit_at_zero j = rw (bit_and-bitwise 0 (2 ^ j))
