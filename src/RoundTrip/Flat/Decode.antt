-- ===== src/RoundTrip/Flat/Decode.antt =====
-- What the loop of pb_decode_noinit in pb_decode.c does at the tag of a field of a message type of
-- numbers.
use yum_quest.Base.{
  ℕ, zero, suc, ◌+◌, ◌-◌, ◌≤◌, ◌<◌, ◌≡◌, ◌≢◌, refl, ap, ◌∙◌, Bool, true, false, ◌&&◌, Option, none,
  some, List, [], ◌∷◌, length, All, arith, ◌==◌, ltb, if◌then◌else◌, Bool-cases, inl, inr,
}
use yum_quest.Command.{pure, and_then}
use yum_quest.Memory.{Mem, store}
use yum_quest.Field.{
  Field, Iter, field_at, current, htype, htype_required, is_wanted, pb_field_iter_find,
}
use yum_quest.Field.Walk.{walk, current-walk}
use yum_quest.Field.Find.{Finds, pb_field_iter_find-Finds}
use yum_quest.Decoder.{Decoding, Surroundings, write}
use yum_quest.Decoder.Decodable.{field_at-All, required_before, IsChecked}
use yum_quest.Decoder.Fields.{Messages, decoder_for, decode_static_field, decode_field}
use yum_quest.Decoder.Required.{Progress, mark_seen, check_seen, complete, missing}
use yum_quest.Decoder.Required.Words.{marked, contains, all_below}
use yum_quest.Decoder.Required.Seen.{check_seen-marked}
use yum_quest.Decoder.Required.Count.{required_index-walk}
use yum_quest.Decoder.Message.{decode_known, decode_tagged}
use yum_quest.RoundTrip.Flat.{IsFlat, IsFlatMessage, HasTags-flat, is_optional}

-- The numbers below `n`.
abbrev pub below : ℕ → List ℕ
below zero = []
below (suc n) = n ∷ below n

contains-below : (n j : ℕ) → j < n → contains j (below n) ≡ true
contains-below zero j lt = absurd (omega arith)
contains-below (suc n) j lt = elim (Bool-cases (n == j)) [
  | inl here ↦ rw here refl
  | inr other ↦ rw other (contains-below n j (ground arith))
]

below-lt : (m n : ℕ) → m ≤ n → All (λ i. i < n) (below m)
below-lt zero n le = tt
below-lt (suc m) n le = (le, below-lt m n (omega arith))

all_below-true : (P : ℕ → Bool) (n : ℕ) → ((j : ℕ) → j < n → P j ≡ true) → all_below P n ≡ true
all_below-true P zero h = refl
all_below-true P (suc n) h = rw (h n (omega arith)) (all_below-true P n (λ j lt. h j (omega arith)))

-- With all of the required fields seen, the message is complete.
pub check_seen-below :
    (count : ℕ) → IsChecked count → check_seen count (marked (below count)) ≡ complete
check_seen-below count h =
    check_seen-marked count (below count) h.below h.no_full_word
      (below-lt count count (omega arith))
    ∙ ap (λ b. if b then complete else missing)
        (all_below-true (λ i. contains i (below count)) count (contains-below count))

-- The memory after a write of `v` to the flag of an optional field.
abbrev pub with_flag : Field → (flag v : ℕ) → Mem → Mem
with_flag f flag v mem = if is_optional f then store 1 flag v mem else mem

-- The variables of the loop at entry `i`, with the required fields before entry `k` seen.
abbrev pub progress : List Field → ℕ → ℕ → ℕ → ℕ → Progress
progress fields dest i k start = record {
  iter = walk fields dest i;
  fields_seen = marked (below (required_before fields k));
  extension_range_start = start;
}

module _ {S : Type 0} (env : Surroundings S) (messages : Messages S) (fuel : ℕ) where
  pub decode_field-number :
      (wire_type : ℕ) (iter : Iter) (f : Field) (d : Decoding S)
      → IsFlat f
      → current iter ≡ f
      → (is_optional f ≡ true → iter.p_size ≢ iter.p_data)
      → decode_field env messages fuel wire_type iter d
        ≡ decoder_for env messages f iter.p_data
            (record d { mem = with_flag f iter.p_size 1 d.mem })
  unfolding decode_field decode_static_field write
  decode_field-number wire_type iter f d h e apart = elim h.once [
    | inl required ↦ ground (arith, e, h.static)
    | inr optional ↦ ground (arith, e, h.static, apart (rw optional refl))
  ]

  module _ (fields : List Field) (dest : ℕ) (message : IsFlatMessage fields) where
    wanted-same : (tag : ℕ) (f : Field) → is_wanted tag f ≡ true → f.tag ≡ tag
    wanted-same tag f w = ground arith

    wanted-tag : (f : Field) → IsFlat f → is_wanted f.tag f ≡ true
    wanted-tag f h = ground (arith, h.number.number)

    find-walk :
        (i k : ℕ)
        → i < length fields
        → k < length fields
        → pb_field_iter_find (walk fields dest i) (field_at fields k).tag
          ≡ some (walk fields dest k, true)
    find-walk i k hi hk = go (pb_field_iter_find (walk fields dest i) (field_at fields k).tag) (
        pb_field_iter_find-Finds fields dest (field_at fields k).tag
          (HasTags-flat fields message.flat) i hi)
      where
        go :
            (o : Option (Iter × Bool))
            → Finds fields dest i (field_at fields k).tag o
            → o ≡ some (walk fields dest k, true)
        go none h = absurd h
        go (some (iter, true)) (j, lt, e, w) =
            let same : j ≡ k =
              message.distinct j k lt hk
                (wanted-same (field_at fields k).tag (field_at fields j) w) in
            ap (λ it. some (it, true)) (e ∙ ap (walk fields dest) same)
        go (some (iter, false)) (e, all) = absurd (
            cc (
              field_at-All (λ f. is_wanted (field_at fields k).tag f ≡ false) fields k all hk,
              wanted-tag (field_at fields k) (field_at-All IsFlat fields k message.flat hk),
            ))

    required_before-le :
        (m k : ℕ)
        → k + m ≡ length fields
        → required_before fields k ≤ required_before fields (length fields)
    required_before-le zero k e =
        let same : k ≡ length fields = omega arith in rw same (omega arith)
    required_before-le (suc m) k e = ground (arith, required_before-le m (suc k) (omega arith))

    index-lt : (k : ℕ) → k < length fields → required_before fields k < 64
    index-lt k lt =
        omega (arith, required_before-le (length fields - k) k (omega arith), message.checked.below)

    seen_next :
        (k : ℕ)
        → k < length fields
        → (if htype (current (walk fields dest k)).type == htype_required
              && ltb (walk fields dest k).required_field_index 64
            then mark_seen
                (walk fields dest k).required_field_index
                (marked (below (required_before fields k)))
            else marked (below (required_before fields k)))
          ≡ marked (below (required_before fields (suc k)))
    seen_next k lt = ground (
      arith,
      current-walk fields dest k,
      required_index-walk fields dest k,
      index-lt k lt,
      message.checked.below,
    )

    -- At the tag of entry `k` the loop decodes the field and marks it, if it is required.
    pub decode_tagged-number :
        (wire_type i k start : ℕ) (d : Decoding S)
        → i < length fields
        → k < length fields
        → decode_tagged env messages fuel
            (record { wire_type = wire_type; tag = (field_at fields k).tag })
            (progress fields dest i k start)
            d
          ≡ and_then
              (decode_field env messages fuel wire_type (walk fields dest k) d)
              (λ _. pure (progress fields dest k (suc k) start))
    unfolding decode_tagged decode_known
    decode_tagged-number wire_type i k start d hi hk =
        rw (find-walk i k hi hk, decode_tagged)
          (ap
            (λ words.
              and_then (decode_field env messages fuel wire_type (walk fields dest k) d) (λ _.
                pure (record {
                  iter = walk fields dest k;
                  fields_seen = words;
                  extension_range_start = start;
                })))
            (seen_next k hk))
