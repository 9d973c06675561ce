-- ===== src/Decoder/Required/Seen.antt =====
-- What the comparison of the words of `fields_seen` in pb_decode.c decides.
use yum_quest.Base.{
  ℕ, ◌+◌, ◌-◌, ◌*◌, ◌/◌, ◌%◌, ◌^◌, ◌<◌, ◌≡◌, ◌≢◌, refl, ap, sym, ◌∙◌, ◌&&◌, List, [], ◌∷◌, All,
  arith, ◌==◌, if◌then◌else◌,
}
use mathlib.Core.Path.{ap₂}
use native.Mathlib.Decide.{dec_lt, ℕ_discrete}
use yum_quest.Base.Bits.{ones_shifted}
use yum_quest.Decoder.Required.{complete, missing, undefined, last_word, check_seen}
use yum_quest.Decoder.Required.Words.{
  marked, contains, all_below, word, all_below-add, full-word, All-map, marked-word, all_below-same,
}

pub check_one :
    (count v w : ℕ)
    → 0 < count
    → count < 32
    → check_seen count (v ∷ w ∷ []) ≡ (if v == 2 ^ count - 1 then complete else missing)
unfolding check_seen
check_one count v w pos lt =
    let quotient : count / 32 ≡ 0 = omega arith in
    let rest : count % 32 ≡ count = omega arith in
    rw (quotient, rest, ones_shifted count lt) (ground arith)

last_word_two :
    (n v w : ℕ)
    → 0 < n
    → n < 32
    → last_word (n + 32) (v ∷ w ∷ []) ≡ (if w == 2 ^ n - 1 then complete else missing)
unfolding last_word
last_word_two n v w pos lt =
    let quotient : (n + 32) / 32 ≡ 1 = omega arith in
    let rest : (n + 32) % 32 ≡ n = omega arith in
    rw (quotient, rest, ones_shifted n lt) (ground arith)

pub check_two :
    (n v w : ℕ)
    → 0 < n
    → n < 32
    → check_seen (n + 32) (v ∷ w ∷ [])
      ≡ (if w == 2 ^ n - 1 && v == 2 ^ 32 - 1 then complete else missing)
unfolding check_seen
check_two n v w pos lt = rw (quotient) (ground (arith, last_word_two n v w pos lt))
  where
    quotient : (n + 32) / 32 ≡ 1
    quotient = omega arith

check_32 : (v w : ℕ) → check_seen 32 (v ∷ w ∷ []) ≡ (if v == 2 ^ 32 - 1 then undefined else missing)
unfolding check_seen
check_32 v w = ground arith

one_word :
    (count : ℕ) (is : List ℕ)
    → 0 < count
    → count < 32
    → All (λ i. i < count) is
    → check_seen count (marked is)
      ≡ (if all_below (λ i. contains i is) count then complete else missing)
one_word count is pos lt all =
    rw
      (
        marked-word is (All-map is (λ i h. omega arith) all),
        check_one count (word 0 is) (word 1 is) pos lt,
      )
      (ap (λ b. if b then complete else missing)
        (full-word 0 count is (omega arith) (All-map is (λ i h e. omega arith) all)
          ∙ all_below-same (λ j. contains (j + 32 * 0) is) (λ j. contains j is) count
              (λ j. ap (λ i. contains i is) (omega arith))))

two_words :
    (n : ℕ) (is : List ℕ)
    → 0 < n
    → n < 32
    → All (λ i. i < n + 32) is
    → check_seen (n + 32) (marked is)
      ≡ (if all_below (λ i. contains i is) (n + 32) then complete else missing)
two_words n is pos lt all =
    rw
      (
        marked-word is (All-map is (λ i h. omega arith) all),
        check_two n (word 0 is) (word 1 is) pos lt,
      )
      (ap (λ b. if b then complete else missing)
        (ap₂ (λ x y. x && y)
            (full-word 1 n is (omega arith) (All-map is (λ i h e. omega arith) all))
            (full-word 0 32 is (omega arith) (All-map is (λ i h e. omega arith) all)
              ∙ all_below-same (λ j. contains (j + 32 * 0) is) (λ j. contains j is) 32
                  (λ j. ap (λ i. contains i is) (omega arith)))
          ∙ sym (all_below-add (λ i. contains i is) 32 n)))

check_zero : (words : List ℕ) → check_seen 0 words ≡ complete
unfolding check_seen
check_zero words = refl

-- The indices of the required fields seen are below `count`, which is below 64 and no multiple of 32
-- but 0. Then the comparison of the words of `fields_seen` is defined, and it answers `complete`
-- exactly if every index below `count` has been seen.
pub check_seen-marked :
    (count : ℕ) (is : List ℕ)
    → count < 64
    → (count % 32 ≡ 0 → count ≡ 0)
    → All (λ i. i < count) is
    → check_seen count (marked is)
      ≡ (if all_below (λ i. contains i is) count then complete else missing)
check_seen-marked count is lt no_multiple all = elim (ℕ_discrete count 0) [
  | yes e ↦ rw e (check_zero (marked is))
  | no ne ↦ elim (dec_lt count 32) [
    | yes small ↦ one_word count is (omega arith) small all
    | no large ↦
        let split : count - 32 + 32 ≡ count = omega arith in
        rw split at (
          two_words (count - 32) is (above ne large) (omega arith)
            (All-map is (λ i h. omega arith) all))
  ]
]
  where
    above : count ≢ 0 → ¬ (count < 32) → 0 < count - 32
    above ne large = elim (ℕ_discrete count 32) [
      | yes e ↦ absurd (ne (no_multiple (omega arith)))
      | no other ↦ omega arith
    ]

-- With exactly 32 required fields the comparison of the words is undefined whenever all of them have
-- been seen: the C code then shifts a uint32_t by 32.
pub check_seen-marked_32 :
    (is : List ℕ)
    → All (λ i. i < 32) is
    → check_seen 32 (marked is) ≡ (if all_below (λ i. contains i is) 32 then undefined else missing)
check_seen-marked_32 is all =
    rw (marked-word is (All-map is (λ i h. omega arith) all), check_32 (word 0 is) (word 1 is))
      (ap (λ b. if b then undefined else missing)
        (full-word 0 32 is (omega arith) (All-map is (λ i h e. omega arith) all)
          ∙ all_below-same (λ j. contains (j + 32 * 0) is) (λ j. contains j is) 32
              (λ j. ap (λ i. contains i is) (omega arith))))
