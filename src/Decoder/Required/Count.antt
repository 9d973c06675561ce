-- ===== src/Decoder/Required/Count.antt =====
-- The number of required fields that pb_decode_noinit of pb_decode.c counts at its end.
use yum_quest.Base.{
  ℕ, zero, suc, ◌+◌, ◌-◌, ◌^◌, ◌≤◌, ◌<◌, ◌≡◌, ◌≢◌, refl, ap, sym, ◌∙◌, Bool, true, false, some,
  List, [], ◌∷◌, length, arith, ◌==◌, if◌then◌else◌, Bool-cases, inl, inr, ◌&&◌,
}
use native.Mathlib.Decide.{dec_lt}
use yum_quest.Field.{
  Field, current, field_at, begin_iter, advance, same_union, htype, htype_required,
}
use yum_quest.Field.Walk.{
  HasTags, walk, tag-field_at, start-walk, current-walk, next-walk, next-walk_last,
}
use yum_quest.Decoder.Required.{
  complete, missing, undefined, count_loop, req_field_count, check_seen,
}
use yum_quest.Decoder.Decodable.{required_before, IsChecked}
use yum_quest.Decoder.Required.Seen.{check_one, check_two}

module _ (fields : List Field) (dest : ℕ) where
  pub required_index-walk :
      (k : ℕ) → (walk fields dest k).required_field_index ≡ required_before fields k
  unfolding walk begin_iter advance same_union
  required_index-walk zero = refl
  required_index-walk (suc k) = ground (arith, required_index-walk k, current-walk fields dest k)

module _ (fields : List Field) (dest : ℕ) (tags : HasTags fields) where
  count_loop-walk :
      (rounds k m : ℕ)
      → suc m ≡ length fields
      → k ≤ m
      → m < k + rounds
      → count_loop rounds (walk fields dest k)
        ≡ some (required_before fields m, (field_at fields m).type, walk fields dest 0)
  unfolding count_loop
  count_loop-walk zero k m e le lt = absurd (omega arith)
  count_loop-walk (suc rounds) k m e le lt = elim (dec_lt k m) [
    | yes inner ↦
        rw (next-walk fields dest k tags (omega arith))
          (count_loop-walk rounds (suc k) m e inner (omega arith))
    | no last ↦
        rw
          (
            next-walk_last fields dest k tags (omega arith),
            required_index-walk fields dest k,
            current-walk fields dest k,
          )
          (ap (λ i. some (required_before fields i, (field_at fields i).type, walk fields dest 0))
            (omega arith))
  ]

  current-walk_zero : 0 < length fields → ((current (walk fields dest 0)).tag == 0) ≡ false
  current-walk_zero lt = ground (arith, current-walk fields dest 0, tag-field_at fields 0 tags lt)

  enough : (k m : ℕ) → suc m ≡ length fields → m < k + (length (walk fields dest k).start + 1)
  enough k m e =
      let same : length (walk fields dest k).start ≡ length fields =
        ap length (start-walk fields dest k) in
      omega arith

  req_field_count_at :
      (k m : ℕ)
      → suc m ≡ length fields
      → k ≤ m
      → req_field_count (walk fields dest k) ≡ some (required_before fields (suc m))
  unfolding req_field_count
  req_field_count_at k m e le =
      rw
        (
          req_field_count,
          count_loop-walk (length (walk fields dest k).start + 1) k m e le (enough k m e),
          current-walk_zero (omega arith),
        )
        (elim (Bool-cases (htype (field_at fields m).type == htype_required)) [
          | inl required ↦ rw required refl
          | inr other ↦ rw other refl
        ])

  -- From any entry of an array where every entry has a tag, the loop at the end of pb_decode_noinit
  -- counts the required fields of the array.
  pub req_field_count-walk :
      (k : ℕ)
      → k < length fields
      → req_field_count (walk fields dest k) ≡ some (required_before fields (length fields))
  req_field_count-walk k lt =
      let e : suc (length fields - 1) ≡ length fields = omega arith in
      req_field_count_at k (length fields - 1) e (omega arith)
      ∙ ap (λ n. some (required_before fields n)) e

same_count : (c : ℕ) → 32 < c → c - 32 + 32 ≡ c
same_count c lt = omega arith

either_defined : (b : Bool) → (if b then complete else missing) ≢ undefined
either_defined true e = ground (arith, e)
either_defined false e = ground (arith, e)

-- Below 64, and for no multiple of 32 but 0, the comparison of the words is defined.
pub check_seen-defined :
    (count v w : ℕ) → IsChecked count → check_seen count (v ∷ w ∷ []) ≢ undefined
unfolding check_seen
check_seen-defined zero v w h e = ground (arith, e)
check_seen-defined (suc n) v w h e = elim (dec_lt (suc n) 32) [
  | yes one ↦
      either_defined (v == 2 ^ suc n - 1) (sym (check_one (suc n) v w (omega arith) one) ∙ e)
  | no two ↦ elim (dec_lt 32 (suc n)) [
    | yes more ↦ either_defined (w == 2 ^ (suc n - 32) - 1 && v == 2 ^ 32 - 1) (
        sym (check_two (suc n - 32) v w (omega arith) (omega (arith, h.below)))
        ∙ ap (λ c. check_seen c (v ∷ w ∷ [])) (same_count (suc n) more)
        ∙ e)
    | no full ↦ absurd (ground (arith, h.no_full_word (omega arith)))
  ]
]
