-- ===== src/Base/Digits.antt =====
-- The binary digits of a number, and what `|` with a power of two does to them.
use Prim.Native.Nat.{ℕ, zero, suc, ◌-◌, ◌/◌, ◌%◌, ◌^◌, ◌<◌, max, bit_or}
use mathlib.Core.Path.{◌≡◌, refl, ap, ◌∙◌}
use mathlib.Core.Logic.{◌≢◌}
use native.Mathlib.Nat.{pow-suc, one-le-pow}
use native.Mathlib.Omega.{arith}
use yum_quest.Base.Bits.{bit_or_step}

-- Digit `i`, from the lowest.
abbrev pub digit : ℕ → ℕ → ℕ
digit zero w = w % 2
digit (suc i) w = digit i (w / 2)

pub digit-bit_or : (i a b : ℕ) → digit i (bit_or a b) ≡ max (digit i a) (digit i b)
digit-bit_or zero a b = omega (arith, bit_or_step a b)
digit-bit_or (suc i) a b = ap (digit i) half ∙ digit-bit_or i (a / 2) (b / 2)
  where
    half : bit_or a b / 2 ≡ bit_or (a / 2) (b / 2)
    half = omega (arith, bit_or_step a b)

pub digit-lt : (i w : ℕ) → digit i w < 2
digit-lt zero w = omega arith
digit-lt (suc i) w = digit-lt i (w / 2)

pow_half : (k : ℕ) → 2 ^ suc k / 2 ≡ 2 ^ k
pow_half k = omega (arith, pow-suc 2 k)

pub digit-zero : (i : ℕ) → digit i 0 ≡ 0
digit-zero zero = refl
digit-zero (suc i) = digit-zero i

pub digit-pow_same : (k : ℕ) → digit k (2 ^ k) ≡ 1
digit-pow_same zero = refl
digit-pow_same (suc k) = ap (digit k) (pow_half k) ∙ digit-pow_same k

pub digit-pow_other : (i k : ℕ) → i ≢ k → digit i (2 ^ k) ≡ 0
digit-pow_other zero zero ne = absurd (ne refl)
digit-pow_other zero (suc k) ne = omega (arith, pow-suc 2 k)
digit-pow_other (suc i) zero ne = ap (digit i) none_left ∙ digit-zero i
  where
    none_left : 2 ^ 0 / 2 ≡ 0
    none_left = omega arith
digit-pow_other (suc i) (suc k) ne =
    ap (digit i) (pow_half k) ∙ digit-pow_other i k (λ e. ne (ap suc e))

-- The number all of whose `n` digits are ones.
pub all_ones : (n w : ℕ) → w < 2 ^ n → ((i : ℕ) → i < n → digit i w ≡ 1) → w ≡ 2 ^ n - 1
all_ones zero w lt ones = omega arith
all_ones (suc n) w lt ones = omega (
  arith,
  ones 0 (omega arith),
  all_ones n (w / 2) (omega (arith, pow-suc 2 n)) (λ i h. ones (suc i) (omega arith)),
  pow-suc 2 n,
  one-le-pow n 2 (omega arith),
)

pub digit-ones : (n i : ℕ) → i < n → digit i (2 ^ n - 1) ≡ 1
digit-ones zero i lt = absurd (omega arith)
digit-ones (suc n) zero lt = omega (arith, pow-suc 2 n, one-le-pow n 2 (omega arith))
digit-ones (suc n) (suc i) lt = ap (digit i) half ∙ digit-ones n i (omega arith)
  where
    half : (2 ^ suc n - 1) / 2 ≡ 2 ^ n - 1
    half = omega (arith, pow-suc 2 n, one-le-pow n 2 (omega arith))

pub bit_or_lt : (n a b : ℕ) → a < 2 ^ n → b < 2 ^ n → bit_or a b < 2 ^ n
bit_or_lt zero a b h g = omega (arith, both)
  where
    both : bit_or a b ≡ 0
    both = ap (λ (t : ℕ). bit_or t b) a_zero ∙ ap (λ (t : ℕ). bit_or 0 t) b_zero
      where
        a_zero : a ≡ 0
        a_zero = omega arith

        b_zero : b ≡ 0
        b_zero = omega arith
bit_or_lt (suc n) a b h g = omega (
  arith,
  bit_or_step a b,
  bit_or_lt n (a / 2) (b / 2) (omega (arith, pow-suc 2 n)) (omega (arith, pow-suc 2 n)),
  pow-suc 2 n,
)
