-- ===== src/Decoder/Required/Words.antt =====
-- The words of `fields_seen` in pb_decode.c as sets of indices.
use yum_quest.Base.{
  ℕ, zero, suc, ◌+◌, ◌-◌, ◌*◌, ◌/◌, ◌%◌, ◌^◌, ◌<◌, ◌≤◌, ◌≡◌, ◌≢◌, refl, ap, ◌∙◌, Bool, true, false,
  ◌&&◌, ◌||◌, List, [], ◌∷◌, All, arith, bit_or, ◌==◌, if◌then◌else◌, Bool-cases, inl, inr,
}
use mathlib.Core.Path.{ap₂}
use native.Mathlib.Nat.{one-le-pow, pow-le-pow_right, pow-suc}
use native.Mathlib.Decide.{ℕ_discrete}
use yum_quest.Base.Digits.{
  digit, digit-bit_or, digit-zero, digit-pow_same, digit-lt, digit-pow_other, all_ones, digit-ones,
  bit_or_lt,
}
use yum_quest.Decoder.Required.{no_fields_seen, mark_seen}

-- `fields_seen` after fields with these indices.
abbrev pub marked : List ℕ → List ℕ
marked [] = no_fields_seen
marked (i ∷ is) = mark_seen i (marked is)

abbrev pub contains : ℕ → List ℕ → Bool
contains j [] = false
contains j (i ∷ is) = i == j || contains j is

-- Every number below `n` passes the test.
abbrev pub all_below : (ℕ → Bool) → ℕ → Bool
all_below P zero = true
all_below P (suc n) = P n && all_below P n

all_below-true : (P : ℕ → Bool) (n j : ℕ) → all_below P n ≡ true → j < n → P j ≡ true
all_below-true P zero j e lt = absurd (omega arith)
all_below-true P (suc n) j e lt = elim (ℕ_discrete j n) [
  | yes here ↦ rw here (ground arith)
  | no ne ↦ all_below-true P n j (ground arith) (omega arith)
]

all_below-false : (P : ℕ → Bool) (n : ℕ) → all_below P n ≡ false → (j : ℕ) × (j < n) × (P j ≡ false)
all_below-false P zero e = absurd (ground arith)
all_below-false P (suc n) e = elim (Bool-cases (P n)) [
  | inl here ↦ let (j, lt, miss) = all_below-false P n (ground arith) in (j, omega arith, miss)
  | inr miss ↦ (n, omega arith, miss)
]

and_assoc : (x y z : Bool) → (x && (y && z)) ≡ ((x && y) && z)
and_assoc true y z = refl
and_assoc false y z = refl

pub all_below-add :
    (P : ℕ → Bool) (a c : ℕ) → all_below P (c + a) ≡ (all_below (λ j. P (j + a)) c && all_below P a)
all_below-add P a zero = ap (all_below P) none_more
  where
    none_more : 0 + a ≡ a
    none_more = omega arith
all_below-add P a (suc c) =
    ap (all_below P) one_more
    ∙ ap (λ t. P (c + a) && t) (all_below-add P a c)
    ∙ and_assoc (P (c + a)) (all_below (λ j. P (j + a)) c) (all_below P a)
  where
    one_more : suc c + a ≡ suc (c + a)
    one_more = omega arith

-- A number of `n` digits that say which numbers pass a test is all ones exactly if all do.
full-all_below :
    (w n : ℕ) (P : ℕ → Bool)
    → w < 2 ^ n
    → ((j : ℕ) → j < n → digit j w ≡ (if P j then 1 else 0))
    → (w == 2 ^ n - 1) ≡ all_below P n
full-all_below w n P lt d = elim (Bool-cases (all_below P n)) [
  | inl every ↦
      let ones : w ≡ 2 ^ n - 1 =
        all_ones n w lt (λ j h. d j h ∙ ap one_if (all_below-true P n j every h)) in
      rw every (ground arith)
  | inr some_not ↦ rw some_not (missing_one (all_below-false P n some_not))
]
  where
    one_if : Bool → ℕ
    one_if b = if b then 1 else 0

    missing_one : (j : ℕ) × (j < n) × (P j ≡ false) → (w == 2 ^ n - 1) ≡ false
    missing_one (j, h, miss) = elim (Bool-cases (w == 2 ^ n - 1)) [
      | inl e ↦
          let ones : w ≡ 2 ^ n - 1 = ground arith in
          let one : digit j w ≡ 1 = ap (digit j) ones ∙ digit-ones n j h in
          absurd (omega (arith, one, d j h, ap one_if miss))
      | inr e ↦ e
    ]

-- Word `k` of `fields_seen`.
abbrev pub word : ℕ → List ℕ → ℕ
word k [] = 0
word k (i ∷ is) = if i / 32 == k then bit_or (word k is) (2 ^ (i % 32)) else word k is

pub marked-word : (is : List ℕ) → All (λ i. i < 64) is → marked is ≡ word 0 is ∷ word 1 is ∷ []
unfolding mark_seen
marked-word [] h = refl
marked-word (i ∷ is) h = ground (arith, marked-word is h.1)

-- What setting bit `m` does to digit `j`.
digit-set : (j m w : ℕ) → j ≡ m → digit j (bit_or w (2 ^ m)) ≡ 1
digit-set j m w e =
    omega
      (arith, digit-bit_or j w (2 ^ m), digit-lt j w, ap (λ t. digit t (2 ^ m)) e, digit-pow_same m)

digit-set_other : (j m w : ℕ) → j ≢ m → digit j (bit_or w (2 ^ m)) ≡ digit j w
digit-set_other j m w ne = omega (arith, digit-bit_or j w (2 ^ m), digit-pow_other j m ne)

pow_lt : (m n : ℕ) → m < n → 2 ^ m < 2 ^ n
pow_lt m n h =
    omega
      (arith, pow-suc 2 m, one-le-pow m 2 (omega arith), pow-le-pow_right {n = 2} (omega arith) h)

digit-word :
    (k j : ℕ) (is : List ℕ)
    → j < 32
    → digit j (word k is) ≡ (if contains (j + 32 * k) is then 1 else 0)
digit-word k j [] h = digit-zero j
digit-word k j (i ∷ is) h = elim (ℕ_discrete i (j + 32 * k)) [
  | yes e ↦
      let here : i / 32 ≡ k = omega arith in
      let same : j ≡ i % 32 = omega arith in ground (arith, digit-set j (i % 32) (word k is) same)
  | no ne ↦ elim (ℕ_discrete (i / 32) k) [
    | yes here ↦
        let other : j ≢ i % 32 = λ (e : j ≡ i % 32). ne (omega arith) in
        ground (arith, digit-set_other j (i % 32) (word k is) other, digit-word k j is h)
    | no away ↦ ground (arith, digit-word k j is h)
  ]
]

word-lt : (k n : ℕ) (is : List ℕ) → All (λ i. i / 32 ≡ k → i % 32 < n) is → word k is < 2 ^ n
word-lt k n [] h = one-le-pow n 2 (omega arith)
word-lt k n (i ∷ is) h = elim (ℕ_discrete (i / 32) k) [
  | yes here ↦ ground (
    arith,
    bit_or_lt n (word k is) (2 ^ (i % 32)) (word-lt k n is h.1) (pow_lt (i % 32) n (h.0 here)),
  )
  | no away ↦ ground (arith, word-lt k n is h.1)
]

pub All-map : {P Q : ℕ → Type 0} (xs : List ℕ) → ((x : ℕ) → P x → Q x) → All P xs → All Q xs
All-map [] f h = tt
All-map (x ∷ xs) f h = (f x h.0, All-map xs f h.1)

-- Of a set of indices below `count`, the words of `fields_seen` hold exactly these.
pub full-word :
    (k n : ℕ) (is : List ℕ)
    → n ≤ 32
    → All (λ i. i / 32 ≡ k → i % 32 < n) is
    → (word k is == 2 ^ n - 1) ≡ all_below (λ j. contains (j + 32 * k) is) n
full-word k n is le h =
    full-all_below (word k is) n (λ j. contains (j + 32 * k) is) (word-lt k n is h)
      (λ j lt. digit-word k j is (omega arith))

pub all_below-same :
    (P Q : ℕ → Bool) (n : ℕ) → ((j : ℕ) → P j ≡ Q j) → all_below P n ≡ all_below Q n
all_below-same P Q zero h = refl
all_below-same P Q (suc n) h = ap₂ (λ x y. x && y) (h n) (all_below-same P Q n h)
