-- ===== src/Base/Bits.antt =====
-- Bit operations as arithmetic: masks over a byte, and `|` of a number with a shifted one.
use Prim.Native.Nat.{
  ℕ, zero, suc, ◌+◌, ◌-◌, ◌*◌, ◌/◌, ◌%◌, ◌^◌, ◌≤◌, ◌<◌, max, min, bit_and, bit_or, digits,
  bit_or-bitwise, bit_and-bitwise,
}
use mathlib.Core.Path.{◌≡◌, refl, ap}
use mathlib.Core.Bool.{Bool, true, ◌&&◌}
use native.Mathlib.Nat.{pow-suc}
use native.Mathlib.Omega.{arith}
use Prim.Native.Nat.{compare, Ordering}
use mathlib.Core.Bool.{false}

-- Whether two functions agree on every argument below a bound, by evaluation.
agree_below : (f g : ℕ → ℕ) → ℕ → Bool
agree_below f g zero = true
agree_below f g (suc n) =
    elim (compare (f n) (g n)) [ Ordering.eq ↦ true | _ ↦ false ] && agree_below f g n

agree_below→eq : (f g : ℕ → ℕ) (n x : ℕ) → agree_below f g n ≡ true → x < n → f x ≡ g x
unfolding agree_below
agree_below→eq f g zero x e h = absurd (omega arith)
agree_below→eq f g (suc n) x e h = ground (arith, agree_below→eq f g n x)

pub mask_7f : (b : ℕ) → b < 256 → bit_and b 0x7f ≡ b % 128
unfolding agree_below
mask_7f b h = agree_below→eq (λ x. bit_and x 0x7f) (λ x. x % 128) 256 b refl h

pub mask_80 : (b : ℕ) → b < 256 → bit_and b 0x80 ≡ b / 128 * 128
unfolding agree_below
mask_80 b h = agree_below→eq (λ x. bit_and x 0x80) (λ x. x / 128 * 128) 256 b refl h

pub set_80 : (b : ℕ) → b < 128 → bit_or b 0x80 ≡ b + 128
unfolding agree_below
set_80 b h = agree_below→eq (λ x. bit_or x 0x80) (λ x. x + 128) 128 b refl h

-- The recursion on digits that `bit_or` and `bit_and` stand for does not depend on its fuel.
module _ (z : ℕ → ℕ) (f : ℕ → ℕ → ℕ) where
  digits-zero : (n m b : ℕ) → digits z f n zero b ≡ digits z f m zero b
  digits-zero zero zero b = refl
  digits-zero zero (suc m) b = refl
  digits-zero (suc n) zero b = refl
  digits-zero (suc n) (suc m) b = refl

  digits_fuel : (n m a b : ℕ) → a ≤ n → a ≤ m → digits z f n a b ≡ digits z f m a b
  digits_fuel n m zero b p q = digits-zero n m b
  digits_fuel zero m (suc a) b p q = absurd (omega arith)
  digits_fuel (suc n) zero (suc a) b p q = absurd (omega arith)
  digits_fuel (suc n) (suc m) (suc a) b p q =
      omega (arith, digits_fuel n m (suc a / 2) (b / 2) (omega arith) (omega arith))

-- One binary digit of `|`.
pub bit_or_step : (a b : ℕ) → bit_or a b ≡ bit_or (a / 2) (b / 2) * 2 + max (a % 2) (b % 2)
bit_or_step zero b = omega (arith, bit_or-bitwise 0 b, bit_or-bitwise 0 (b / 2))
bit_or_step (suc a) b = omega (
  arith,
  bit_or-bitwise (suc a) b,
  bit_or-bitwise (suc a / 2) (b / 2),
  digits_fuel (λ y. y) max a (suc a / 2) (suc a / 2) (b / 2) (omega arith) (omega arith),
)

-- One binary digit of `&`.
bit_and_step : (a b : ℕ) → bit_and a b ≡ bit_and (a / 2) (b / 2) * 2 + min (a % 2) (b % 2)
bit_and_step zero b = omega (arith, bit_and-bitwise 0 b, bit_and-bitwise 0 (b / 2))
bit_and_step (suc a) b = omega (
  arith,
  bit_and-bitwise (suc a) b,
  bit_and-bitwise (suc a / 2) (b / 2),
  digits_fuel (λ _. 0) min a (suc a / 2) (suc a / 2) (b / 2) (omega arith) (omega arith),
)

bit_and-zero : (n a : ℕ) → a ≤ n → bit_and a 0 ≡ 0
bit_and-zero n zero h = refl
bit_and-zero zero (suc a) h = absurd (omega arith)
bit_and-zero (suc n) (suc a) h =
    omega (arith, bit_and_step (suc a) 0, bit_and-zero n (suc a / 2) (omega arith))

-- Masks of ones, at any width of the number.
pub mask_one : (a : ℕ) → bit_and a 1 ≡ a % 2
mask_one a = omega (arith, bit_and_step a 1, bit_and-zero (a / 2) (a / 2) (omega arith))

pub mask_seven : (a : ℕ) → bit_and a 7 ≡ a % 8
mask_seven a = omega (arith, bit_and_step a 7, bit_and_step (a / 2) 3, mask_one (a / 2 / 2))

mask_63 : (a : ℕ) → bit_and a 0x3f ≡ a % 64
mask_63 a = omega (
  arith,
  bit_and_step a 0x3f,
  bit_and_step (a / 2) 0x1f,
  bit_and_step (a / 2 / 2) 0x0f,
  mask_seven (a / 2 / 2 / 2),
)

pub mask_127 : (a : ℕ) → bit_and a 0x7f ≡ a % 128
mask_127 a = omega (arith, bit_and_step a 0x7f, mask_63 (a / 2))

pub mask_255 : (a : ℕ) → bit_and a 0xff ≡ a % 256
mask_255 a = omega (arith, bit_and_step a 0xff, mask_127 (a / 2))

-- `a | (b << k)` is a sum when `a` fits the low `k` bits.
pub bit_or_shifted : (k a b : ℕ) → a < 2 ^ k → bit_or a (b * 2 ^ k) ≡ a + b * 2 ^ k
bit_or_shifted zero zero b h = omega (arith, bit_or-bitwise 0 (b * 2 ^ 0))
bit_or_shifted zero (suc a) b h = absurd (omega arith)
bit_or_shifted (suc k) a b h = omega (
  arith,
  bit_or_step a (b * 2 ^ suc k),
  ap (λ (t : ℕ). b * t) (pow-suc 2 k),
  ap (λ (t : ℕ). bit_or (a / 2) t) halved,
  pow-suc 2 k,
  bit_or_shifted k (a / 2) b (omega (arith, pow-suc 2 k)),
)
  where
    halved : b * 2 ^ suc k / 2 ≡ b * 2 ^ k
    halved = omega (arith, ap (λ (t : ℕ). b * t) (pow-suc 2 k))

pub bit_or-zero : (n a : ℕ) → a ≤ n → bit_or a 0 ≡ a
bit_or-zero n zero h = refl
bit_or-zero zero (suc a) h = absurd (omega arith)
bit_or-zero (suc n) (suc a) h =
    omega (arith, bit_or_step (suc a) 0, bit_or-zero n (suc a / 2) (omega arith))

-- `(a << 3) | b` is a sum when `b` has three bits.
pub bit_or_low_three : (a b : ℕ) → b < 8 → bit_or (a * 2 ^ 3) b ≡ a * 8 + b
bit_or_low_three a b h = omega (
  arith,
  bit_or_step (a * 8) b,
  bit_or_step (a * 8 / 2) (b / 2),
  bit_or_step (a * 8 / 2 / 2) (b / 2 / 2),
  ap (λ (t : ℕ). bit_or (a * 8 / 2 / 2 / 2) t) none_left,
  bit_or-zero (a * 8 / 2 / 2 / 2) (a * 8 / 2 / 2 / 2) (omega arith),
)
  where
    none_left : b / 2 / 2 / 2 ≡ 0
    none_left = omega arith

-- The `n` lowest ones of a 32-bit word, which a shift leaves of all of them.
pub ones_shifted : (n : ℕ) → n < 32 → (2 ^ 32 - 1) / 2 ^ (32 - n) ≡ 2 ^ n - 1
unfolding agree_below
ones_shifted n h = agree_below→eq (λ n. (2 ^ 32 - 1) / 2 ^ (32 - n)) (λ n. 2 ^ n - 1) 32 n refl h

pub bit_or_below : (n a b : ℕ) → a < 2 ^ n → b < 2 ^ n → bit_or a b < 2 ^ n
bit_or_below zero zero zero ha hb = omega (arith, bit_or-zero 0 0 (omega arith))
bit_or_below zero zero (suc b) ha hb = absurd (omega arith)
bit_or_below zero (suc a) b ha hb = absurd (omega arith)
bit_or_below (suc n) a b ha hb =
    omega (arith, bit_or_step a b, bit_or_below n (a / 2) (b / 2) (omega arith) (omega arith))
