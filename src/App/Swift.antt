-- ===== src/App/Swift.antt =====
-- Optionals and arrays, as the application's Swift code uses them.
use yum_quest.Base.{
  ℕ, zero, suc, ◌<◌, ◌≡◌, refl, All, length, arith, Option, none, some, List, [], ◌∷◌,
}

-- Optional chaining: a?.b, where `b` is an optional itself.
module _ {A B : Type 0} where
  abbrev pub chain : Option A → (A → Option B) → Option B
  chain none f = none
  chain (some a) f = f a

  infixl 5 ◌>>=◌
  abbrev pub ◌>>=◌ : Option A → (A → Option B) → Option B
  m >>= f = chain m f

-- sections[i], which traps out of range.
abbrev pub at {ℓ} : {A : Type ℓ} → List A → ℕ → Option A
at [] i = none
at (x ∷ xs) zero = some x
at (x ∷ xs) (suc i) = at xs i

pub at-below : {A : Type 0} (xs : List A) (i : ℕ) → i < length xs → (x : A) × (at xs i ≡ some x)
at-below [] i h = absurd (omega arith)
at-below (x ∷ xs) zero h = (x, refl)
at-below (x ∷ xs) (suc i) h = at-below xs i (omega arith)

pub same_bound : (n m : ℕ) (is : List ℕ) → n ≡ m → All (λ i. i < n) is → All (λ i. i < m) is
same_bound n m is e h = rw (← e) h

-- Int.
pub data ℤ : Type 0 where
  pos : ℕ → ℤ
  negsuc : ℕ → ℤ
