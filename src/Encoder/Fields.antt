-- ===== src/Encoder/Fields.antt =====
-- Encoding of fields in YumQuest/Pods/nanopb/pb_encode.c: encode_array,
-- pb_check_proto3_default_value, encode_basic_field, encode_callback_field, encode_field, the
-- extensions, and the loop of pb_encode over the fields.
use yum_quest.Base.{
  ℕ, zero, suc, ◌+◌, ◌*◌, Bool, true, false, not, ◌&&◌, ◌||◌, Option, none, some, List, [], length,
  ltb, leb, ◌==◌, if◌then◌else◌,
}
use yum_quest.Command.{Outcome, ok, fail, fault, stuck, Cmd, pure, ◌>>◌}
use yum_quest.Pb.{
  wt_string, u64, array_max_size_exceeded, missing_required_field, invalid_field_type,
  callback_error, invalid_field_descriptor,
}
use yum_quest.Output.{OStream, is_sizing, pb_ostream_sizing, return_error, pb_write}
use yum_quest.Encoding.{pb_encode_varint, pb_encode_tag}
use yum_quest.Memory.{Mem, load}
use yum_quest.Field.{
  Field, field_at, Iter, current, pb_field_iter_begin, pb_field_iter_next, atype, htype, ltype,
  atype_static, atype_pointer, atype_callback, htype_required, htype_optional, htype_repeated,
  htype_oneof, ltype_varint, ltype_uvarint, ltype_svarint, ltype_fixed32, ltype_fixed64,
  ltype_bytes, ltype_string, ltype_submessage, ltype_fixed_length_bytes, ltype_last_packable,
  ltype_extension,
}
use yum_quest.Encoder.{
  Surroundings, pb_enc_varint, pb_enc_uvarint, pb_enc_svarint, pb_enc_fixed32, pb_enc_fixed64,
  pb_enc_bytes, pb_enc_string, pb_enc_fixed_length_bytes, pb_encode_tag_for_field,
}

-- The bytes of a value are all zero: the loop of lines 255 to 265.
unfoldable pub all_zero : ℕ → ℕ → Mem → Bool
all_zero zero p mem = true
all_zero (suc n) p mem = mem p == 0 && all_zero n (p + 1) mem

-- do { if (!check(iter)) return false; } while (pb_field_iter_next(&iter)); return true
unfoldable pub every_field : (Iter → Option Bool) → ℕ → Iter → Option Bool
every_field check zero iter = none
every_field check (suc rounds) iter =
    let next = pb_field_iter_next iter in
    let more = every_field check rounds next.0 in
    elim (check iter) [
      | none ↦ none
      | some false ↦ some false
      | some true ↦ if next.1 then more else some true
    ]

-- pb_check_proto3_default_value. The fuel bounds how deep submessages nest; `none` means that it did
-- not suffice.
unfoldable pub pb_check_proto3_default_value : (ℕ → List Field) → Mem → ℕ → Field → ℕ → Option Bool
unfolding all_zero every_field
pb_check_proto3_default_value fields_at mem zero f p = none
pb_check_proto3_default_value fields_at mem (suc fuel) f p =
    let l = ltype f.type in
    let begin = pb_field_iter_begin (fields_at f.ptr) p in
    let check = λ (iter : Iter).
      pb_check_proto3_default_value fields_at mem fuel (current iter) iter.p_data in
    let submessage =
      if begin.1 then every_field check (length (fields_at f.ptr) + 1) begin.0 else some true in
    if atype f.type == atype_static && l == ltype_bytes
    then some (load 4 p mem == 0)
    else if atype f.type == atype_static && l == ltype_string
    then some (mem p == 0)
    else if atype f.type == atype_static && l == ltype_fixed_length_bytes
    then some (f.data_size == 0)
    else if atype f.type == atype_static && l == ltype_submessage
    then submessage
    else some (all_zero f.data_size p mem)

-- The encoders of the field types, which reach pb_encode through `submessage`, pb_encode_submessage
-- on a descriptor array and the address of a struct.
module _ {T : Type 0} (env : Surroundings T) (fuel : ℕ)
    (submessage : List Field → ℕ → Cmd (OStream T) (Unit {0})) where
  unfoldable pub pb_enc_submessage : Field → ℕ → Cmd (OStream T) (Unit {0})
  pb_enc_submessage field src =
      if field.ptr == 0
      then return_error invalid_field_descriptor
      else submessage (env.fields_at field.ptr) src

  -- PB_ENCODERS[PB_LTYPE(type)]. The entry for extensions is NULL, and the array ends at 0x0A.
  unfoldable pub encoder_for : Field → ℕ → Cmd (OStream T) (Unit {0})
  unfolding pb_enc_submessage
  encoder_for field src =
      let l = ltype field.type in
      if l == ltype_varint
      then pb_enc_varint env field src
      else if l == ltype_uvarint
      then pb_enc_uvarint env field src
      else if l == ltype_svarint
      then pb_enc_svarint env field src
      else if l == ltype_fixed32
      then pb_enc_fixed32 env field src
      else if l == ltype_fixed64
      then pb_enc_fixed64 env field src
      else if l == ltype_bytes
      then pb_enc_bytes env field src
      else if l == ltype_string
      then pb_enc_string env fuel field src
      else if l == ltype_submessage
      then pb_enc_submessage field src
      else if l == ltype_fixed_length_bytes
      then pb_enc_fixed_length_bytes env field src
      else (λ s. fault)

  -- for (i = 0; i < count; i++) { item(p); p += data_size; }
  unfoldable pub each_item :
      (ℕ → Cmd (OStream T) (Unit {0})) → ℕ → ℕ → ℕ → Cmd (OStream T) (Unit {0})
  each_item item size zero p s = ok tt s
  each_item item size (suc count) p s = (item p >> each_item item size count (p + size)) s

  -- The size of a packed array, lines 136 to 155: `none` is a failure on the sizing stream.
  unfoldable pub packed_size : Field → ℕ → ℕ → Outcome (OStream T) ℕ
  unfolding encoder_for each_item
  packed_size field p count =
      if ltype field.type == ltype_fixed32
      then ok (4 * count) pb_ostream_sizing
      else if ltype field.type == ltype_fixed64
      then ok (8 * count) pb_ostream_sizing
      else elim (each_item (encoder_for field) field.data_size count p pb_ostream_sizing) [
        | ok _ s ↦ ok s.bytes_written s
        | fail s ↦ fail s
        | fault ↦ fault
        | stuck ↦ stuck
      ]

  -- The packed branch, lines 132 to 170.
  unfoldable pub encode_packed : Field → ℕ → ℕ → Cmd (OStream T) (Unit {0})
  unfolding packed_size
  encode_packed field p count = do
    pb_encode_tag env.writer wt_string field.tag
    λ s. elim (packed_size field p count) [
      | ok size _ ↦
          (do
            pb_encode_varint env.writer size
            λ s'.
                if is_sizing s'.sink
                then pb_write env.writer [] size s'
                else each_item (encoder_for field) field.data_size count p s')
            s
      | fail _ ↦ fail s
      | fault ↦ fault
      | stuck ↦ stuck
    ]

  -- One entry of an array that is not packed, lines 177 to 195.
  unfoldable pub encode_item : Field → ℕ → Cmd (OStream T) (Unit {0})
  unfolding encoder_for
  encode_item field p =
      let l = ltype field.type in
      let src =
        if atype field.type == atype_pointer && (l == ltype_string || l == ltype_bytes)
        then load 8 p env.mem
        else p in
      pb_encode_tag_for_field env field >> encoder_for field src

  unfoldable pub encode_array : Field → ℕ → ℕ → Cmd (OStream T) (Unit {0})
  unfolding encode_packed encode_item each_item
  encode_array field p count =
      if count == 0
      then pure tt
      else if not (atype field.type == atype_pointer) && ltb field.array_size count
      then return_error array_max_size_exceeded
      else if leb (ltype field.type) ltype_last_packable
      then encode_packed field p count
      else each_item (encode_item field) field.data_size count p

  -- The tag and the value.
  unfoldable pub encode_one : Field → ℕ → Cmd (OStream T) (Unit {0})
  unfolding encoder_for
  encode_one field p = pb_encode_tag_for_field env field >> encoder_for field p

  -- What *pSize reads as a pb_size_t: `none` where pSize points at the one-byte `implicit_has`.
  unfoldable pub encode_counted : Field → ℕ → Option ℕ → Cmd (OStream T) (Unit {0})
  unfolding encode_one encode_array
  encode_counted field p none s = fault
  encode_counted field p (some count) s =
      if htype field.type == htype_repeated
      then encode_array field p count s
      else if count == field.tag
      then encode_one field p s
      else ok tt s

  -- The switch of encode_basic_field, lines 306 to 346; `has` is *pSize as a bool.
  unfoldable pub encode_present : Field → ℕ → Bool → Option ℕ → Cmd (OStream T) (Unit {0})
  unfolding encode_one encode_counted
  encode_present field p has count =
      let h = htype field.type in
      if h == htype_required
      then (if p == 0 then return_error missing_required_field else encode_one field p)
      else if h == htype_optional
      then (if has then encode_one field p else pure tt)
      else if h == htype_repeated || h == htype_oneof
      then encode_counted field p count
      else return_error invalid_field_type

  unfoldable pub encode_basic_field : Field → ℕ → Cmd (OStream T) (Unit {0})
  unfolding encode_present
  encode_basic_field field p =
      let p_size = u64 (p + field.size_offset) in
      let is_pointer = atype field.type == atype_pointer in
      let target = if is_pointer then load 8 p env.mem else p in
      let implicit = pb_check_proto3_default_value env.fields_at env.mem fuel field p in
      if not (field.size_offset == 0)
      then encode_present field target (not (load 1 p_size env.mem == 0))
          (some (load 4 p_size env.mem))
      else if is_pointer
      then encode_present field target (not (target == 0)) none
      else if htype field.type == htype_optional
      then elim implicit [
        | none ↦ λ s. stuck
        | some is_default ↦ encode_present field target (not is_default) none
      ]
      else encode_present field target true none

  -- A pb_callback_t has `funcs` at offset 0 and `arg` at offset 8.
  unfoldable pub encode_callback_field : Field → ℕ → Cmd (OStream T) (Unit {0})
  encode_callback_field field p s =
      let encode = load 8 p env.mem in
      if encode == 0 then ok tt s else elim (env.callback_at encode field (p + 8) s) [
        | fail s' ↦ return_error callback_error s'
        | other ↦ other
      ]

  unfoldable pub encode_field : Field → ℕ → Cmd (OStream T) (Unit {0})
  unfolding encode_basic_field encode_callback_field
  encode_field field p =
      let a = atype field.type in
      if a == atype_static || a == atype_pointer
      then encode_basic_field field p
      else if a == atype_callback
      then encode_callback_field field p
      else return_error invalid_field_type

  unfoldable pub default_extension_encoder : ℕ → Cmd (OStream T) (Unit {0})
  unfolding encode_field
  default_extension_encoder ext =
      let field = field_at (env.extension_type_at (load 8 ext env.mem)).arg 0 in
      if atype field.type == atype_pointer
      then encode_field field (ext + 8)
      else encode_field field (load 8 (ext + 8) env.mem)

  -- The loop of encode_extension_field over the linked list from address `ext` on. The first
  -- argument bounds the length of the list.
  unfoldable pub encode_extensions : ℕ → ℕ → Cmd (OStream T) (Unit {0})
  unfolding default_extension_encoder
  encode_extensions zero ext s = stuck
  encode_extensions (suc rounds) ext s =
      let encode = (env.extension_type_at (load 8 ext env.mem)).encode in
      let step : Cmd (OStream T) (Unit {0}) = elim encode [
        | none ↦ default_extension_encoder ext
        | some handler ↦ handler ext
      ] in
      let more = (step >> encode_extensions rounds (load 8 (ext + 16) env.mem)) s in
      if ext == 0 then ok tt s else more

  -- One field of the loop of pb_encode, lines 458 to 469.
  unfoldable pub encode_entry : Iter → Cmd (OStream T) (Unit {0})
  unfolding encode_extensions encode_field
  encode_entry iter =
      if ltype (current iter).type == ltype_extension
      then encode_extensions fuel (load 8 iter.p_data env.mem)
      else encode_field (current iter) iter.p_data

  -- do { … } while (pb_field_iter_next(&iter)); lines 457 to 470.
  unfoldable pub encode_loop : ℕ → Iter → Cmd (OStream T) (Unit {0})
  unfolding encode_entry
  encode_loop zero iter s = stuck
  encode_loop (suc rounds) iter s =
      let next = pb_field_iter_next iter in
      let more = (encode_entry iter >> encode_loop rounds next.0) s in
      if next.1 then more else encode_entry iter s
