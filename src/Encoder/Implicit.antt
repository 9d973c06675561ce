-- ===== src/Encoder/Implicit.antt =====
-- Fields without a flag in pb_encode.c, as proto3 has them: pb_check_proto3_default_value on a submessage
-- of numbers, and what encode_basic_field does after it.
use yum_quest.Base.{
  ℕ, zero, suc, ◌+◌, ◌*◌, ◌^◌, ◌<◌, ◌≤◌, ◌≡◌, ◌≢◌, refl, ap, ◌∙◌, Bool, true, false, ◌&&◌, Option,
  some, List, [], ◌∷◌, length, All, arith, ◌==◌, if◌then◌else◌, Bool-cases, inl, inr,
}
use yum_quest.Command.{Cmd, ok, ◌>>◌}
use yum_quest.Output.{OStream, pb_write}
use yum_quest.Memory.{Mem, load}
use yum_quest.Varint.Format.{varint_bytes}
use yum_quest.Encoding.{pb_encode_tag, pb_encode_varint}
use yum_quest.Encoding.Varint.{pb_encode_varint-groups}
use yum_quest.RoundTrip.Numbers.{tag_value}
use yum_quest.Field.{
  Field, Iter, field_at, current, pb_field_iter_begin, begin_iter, ltype, htype, atype,
  atype_static, atype_pointer, ltype_submessage, htype_optional, htype_required,
}
use yum_quest.Field.Walk.{HasTags, walk, current-walk, next-walk, next-walk_last}
use yum_quest.Decoder.Decodable.{field_at-All}
use yum_quest.Encoder.{Surroundings, pb_encode_tag_for_field}
use yum_quest.Encoder.Fields.{
  all_zero, every_field, encoder_for, pb_enc_submessage, pb_check_proto3_default_value,
  encode_present, encode_one, encode_basic_field,
}

-- A number, or an array of numbers, in the struct itself, with a tag.
abbrev pub IsNumeric : Field → Type 0
IsNumeric f = (atype f.type ≡ atype_static) × (ltype f.type ≤ 4) × (0 < f.tag)

HasTags-numeric : (fields : List Field) → All IsNumeric fields → HasTags fields
HasTags-numeric [] h = tt
HasTags-numeric (f ∷ fields) h = (λ e. ground (arith, h.0.2), HasTags-numeric fields h.1)

-- A number is zero where all its bytes are.
all_zero-load : (n p : ℕ) (mem : Mem) → all_zero n p mem ≡ (load n p mem == 0)
unfolding all_zero load
all_zero-load zero p mem = refl
all_zero-load (suc n) p mem = ground (arith, all_zero-load n (p + 1) mem)

module _ (fields : List Field) (p : ℕ) (mem : Mem) where
  -- The value of entry `k`, or the first value of its array, is zero.
  abbrev pub zero_entry : ℕ → Bool
  zero_entry k = load (field_at fields k).data_size (walk fields p k).p_data mem == 0

  -- Of the `m` entries from `k` on, each one.
  abbrev pub zero_from : ℕ → ℕ → Bool
  zero_from zero k = true
  zero_from (suc m) k = zero_entry k && zero_from m (suc k)

  -- The same for all entries of the struct at `p`.
  abbrev pub zero_struct : Bool
  zero_struct = zero_from (length fields) 0

module _ (fields_at : ℕ → List Field) (mem : Mem) (fuel : ℕ) where
  abbrev pub check_entry : Iter → Option Bool
  check_entry iter =
      pb_check_proto3_default_value fields_at mem (suc fuel) (current iter) iter.p_data

  check-number :
      (f : Field) (p : ℕ)
      → ltype f.type ≤ 4
      → pb_check_proto3_default_value fields_at mem (suc fuel) f p
        ≡ some (load f.data_size p mem == 0)
  unfolding pb_check_proto3_default_value
  check-number f p number = ground (arith, all_zero-load f.data_size p mem)

  module _ (fields : List Field) (p : ℕ) (numeric : All IsNumeric fields) where
    check-walk :
        (k : ℕ)
        → k < length fields
        → check_entry (walk fields p k) ≡ some (zero_entry fields p mem k)
    check-walk k lt =
        ap (λ f. pb_check_proto3_default_value fields_at mem (suc fuel) f (walk fields p k).p_data)
          (current-walk fields p k)
        ∙ check-number (field_at fields k) (walk fields p k).p_data
            (field_at-All IsNumeric fields k numeric lt).1

    every_field-walk :
        (rounds m k : ℕ)
        → k + suc m ≡ length fields
        → m < rounds
        → every_field check_entry rounds (walk fields p k) ≡ some (zero_from fields p mem (suc m) k)
    unfolding every_field
    every_field-walk zero m k e lt = absurd (omega arith)
    every_field-walk (suc rounds) zero k e lt = elim (Bool-cases (zero_entry fields p mem k)) [
      | inl zeros ↦
          rw
            (
              every_field,
              check-walk k (omega arith),
              zeros,
              next-walk_last fields p k (HasTags-numeric fields numeric) (omega arith),
            )
            refl
      | inr other ↦ rw (every_field, check-walk k (omega arith), other) refl
    ]
    every_field-walk (suc rounds) (suc m) k e lt = elim (Bool-cases (zero_entry fields p mem k)) [
      | inl zeros ↦
          rw
            (
              every_field,
              check-walk k (omega arith),
              zeros,
              next-walk fields p k (HasTags-numeric fields numeric) (omega arith),
            )
            (every_field-walk rounds m (suc k) (omega arith) (omega arith))
      | inr other ↦ rw (every_field, check-walk k (omega arith), other) refl
    ]

  begin-numeric :
      (fields : List Field) (p : ℕ)
      → All IsNumeric fields
      → (if (pb_field_iter_begin fields p).1
          then every_field check_entry (length fields + 1) (pb_field_iter_begin fields p).0
          else some true)
        ≡ some (zero_struct fields p mem)
  unfolding pb_field_iter_begin
  begin-numeric [] p numeric = refl
  begin-numeric (g ∷ fields) p numeric =
      let tagged : (g.tag == 0) ≡ false = ground (arith, numeric.0.2) in
      rw tagged (
        first_entry
        ∙ every_field-walk (g ∷ fields) p numeric (length fields + 2) (length fields) 0
            (omega arith) (omega arith))
    where
      first_entry :
          every_field check_entry (suc (length fields) + 1) (begin_iter (g ∷ fields) p)
          ≡ every_field check_entry (length fields + 2) (walk (g ∷ fields) p 0)
      first_entry =
          unfold walk in
          ap (λ n. every_field check_entry n (begin_iter (g ∷ fields) p)) (omega arith)

  pub check-submessage :
      (f : Field) (p : ℕ)
      → atype f.type ≡ atype_static
      → ltype f.type ≡ ltype_submessage
      → All IsNumeric (fields_at f.ptr)
      → pb_check_proto3_default_value fields_at mem (suc (suc fuel)) f p
        ≡ some (zero_struct (fields_at f.ptr) p mem)
  unfolding pb_check_proto3_default_value
  check-submessage f p static submessage numeric =
      rw (static, submessage) (begin-numeric (fields_at f.ptr) p numeric)

module _ {T : Type 0} (env : Surroundings T) (fuel : ℕ)
    (submessage : List Field → ℕ → Cmd (OStream T) (Unit {0})) where
  -- The key of a submessage is the varint of its field number times 8 plus 2, in one write.
  tag_of :
      (f : Field)
      → ltype f.type ≡ ltype_submessage
      → f.tag < 2 ^ 29
      → pb_encode_tag_for_field env f
        ≡ pb_write env.writer (varint_bytes (f.tag * 8 + 2)) (length (varint_bytes (f.tag * 8 + 2)))
  unfolding pb_encode_tag_for_field pb_encode_tag
  tag_of f sub small = rw sub (
      ap (pb_encode_varint env.writer) (tag_value 2 f.tag (omega arith) small)
      ∙ pb_encode_varint-groups env.writer (f.tag * 8 + 2) (omega arith))

  encode_one-submessage :
      (f : Field) (p : ℕ)
      → ltype f.type ≡ ltype_submessage
      → f.tag < 2 ^ 29
      → f.ptr ≢ 0
      → encode_one env (suc (suc fuel)) submessage f p ≡ (
          pb_write env.writer (varint_bytes (f.tag * 8 + 2)) (length (varint_bytes (f.tag * 8 + 2)))
          >> submessage (env.fields_at f.ptr) p)
  unfolding encode_one encoder_for pb_enc_submessage
  encode_one-submessage f p sub small pointed =
      let real : (f.ptr == 0) ≡ false = ground (arith, pointed) in
      rw (tag_of f sub small, sub, real) refl

  -- For an optional submessage in the struct itself that has no flag, whose message type has only
  -- numbers and arrays of numbers, each with a tag: where each number, and the first of each array, is
  -- 0, encode_basic_field writes nothing, whatever the flags, the counts of the arrays and the rest of
  -- them are. Otherwise it writes the varint of 8 times the field number plus 2, and then the submessage.
  -- The field number is below 2^29, and two levels of fuel are enough for the check.
  pub encode_basic_field-implicit :
      (f : Field) (p : ℕ) (s : OStream T)
      → atype f.type ≡ atype_static
      → htype f.type ≡ htype_optional
      → ltype f.type ≡ ltype_submessage
      → f.size_offset ≡ 0
      → f.tag < 2 ^ 29
      → f.ptr ≢ 0
      → All IsNumeric (env.fields_at f.ptr)
      → encode_basic_field env (suc (suc fuel)) submessage f p s ≡ (
          if zero_struct (env.fields_at f.ptr) p env.mem
          then ok tt s
          else (pb_write env.writer
                  (varint_bytes (f.tag * 8 + 2))
                  (length (varint_bytes (f.tag * 8 + 2)))
                >> submessage (env.fields_at f.ptr) p)
              s)
  unfolding encode_basic_field encode_present
  encode_basic_field-implicit f p s static optional sub no_flag small pointed numeric =
      let checked = check-submessage env.fields_at env.mem fuel f p static sub numeric in
      let flagless : (f.size_offset == 0) ≡ true = ground (arith, no_flag) in
      let inline : (atype f.type == atype_pointer) ≡ false = ground (arith, static) in
      let chosen : (htype f.type == htype_optional) ≡ true = ground (arith, optional) in
      let not_required : (htype f.type == htype_required) ≡ false = ground (arith, optional) in
      elim (Bool-cases (zero_struct (env.fields_at f.ptr) p env.mem)) [
        | inl zeros ↦ rw (flagless, inline, chosen, checked, zeros, not_required, chosen) refl
        | inr other ↦
            rw (flagless, inline, chosen, checked, other, not_required, chosen, inline)
              (ap (λ (m : Cmd (OStream T) (Unit {0})). m s)
                (encode_one-submessage f p sub small pointed))
      ]
