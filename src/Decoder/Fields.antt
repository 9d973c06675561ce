-- ===== src/Decoder/Fields.antt =====
-- Decoding of one field in YumQuest/Pods/nanopb/pb_decode.c: PB_DECODERS, pb_dec_submessage,
-- decode_static_field, decode_pointer_field (without PB_ENABLE_MALLOC), decode_callback_field and
-- decode_field. A pb_callback_t has `funcs` at offset 0 and `arg` at offset 8.
use yum_quest.Base.{ℕ, zero, suc, ◌+◌, ◌*◌, ◌&&◌, List, length, ltb, leb, ◌==◌, if◌then◌else◌}
use yum_quest.Command.{ok, fault, stuck, Cmd, pure, ◌>>=◌, ◌>>◌}
use yum_quest.Pb.{
  u32, wt_string, array_overflow, invalid_field_type, no_malloc_support, callback_failed,
  invalid_field_descriptor,
}
use yum_quest.Input.{pb_istream_from_buffer}
use yum_quest.Decoding.{
  pb_skip_field, read_raw_value, pb_make_string_substream, pb_close_string_substream,
}
use yum_quest.Memory.{load, store, clear}
use yum_quest.Field.{
  Field, Iter, current, atype, htype, ltype, atype_static, atype_pointer, atype_callback,
  htype_required, htype_optional, htype_repeated, htype_oneof, ltype_varint, ltype_uvarint,
  ltype_svarint, ltype_fixed32, ltype_fixed64, ltype_bytes, ltype_string, ltype_submessage,
  ltype_fixed_length_bytes, ltype_last_packable,
}
use yum_quest.Decoder.{Decoding, Surroundings, on_stream, return_error, write, in_substream, answer}
use yum_quest.Decoder.Values.{
  pb_dec_varint, pb_dec_uvarint, pb_dec_svarint, pb_dec_fixed32, pb_dec_fixed64, pb_dec_bytes,
  pb_dec_string, pb_dec_fixed_length_bytes,
}

-- The calls that go back to the message level: pb_decode, pb_decode_noinit and
-- pb_message_set_to_defaults on a descriptor array and the address of a struct.
pub record Messages (S : Type 0) : Type 0 where
  pub decode : List Field → ℕ → Cmd (Decoding S) (Unit {0})
  pub decode_noinit : List Field → ℕ → Cmd (Decoding S) (Unit {0})
  pub set_to_defaults : List Field → ℕ → Cmd (Decoding S) (Unit {0})

module _ {S : Type 0} (env : Surroundings S) (messages : Messages S) where
  unfoldable pub pb_dec_submessage : Field → ℕ → Cmd (Decoding S) (Unit {0})
  pb_dec_submessage field dest = do
    sub ← on_stream (pb_make_string_substream env.reader)
    let fields = env.fields_at field.ptr
    let body =
        if htype field.type == htype_repeated
        then messages.decode fields dest
        else messages.decode_noinit fields dest
    let rest = do
      (status, sub') ← in_substream sub body
      on_stream (pb_close_string_substream env.reader sub')
      answer status
    if field.ptr == 0 then return_error invalid_field_descriptor else rest

  -- PB_DECODERS[PB_LTYPE(type)]. The entry for extensions is NULL, and the array ends at 0x0A.
  unfoldable pub decoder_for : Field → ℕ → Cmd (Decoding S) (Unit {0})
  unfolding pb_dec_submessage
  decoder_for field dest =
      let l = ltype field.type in
      if l == ltype_varint
      then pb_dec_varint env.reader field dest
      else if l == ltype_uvarint
      then pb_dec_uvarint env.reader field dest
      else if l == ltype_svarint
      then pb_dec_svarint env.reader field dest
      else if l == ltype_fixed32
      then pb_dec_fixed32 env.reader field dest
      else if l == ltype_fixed64
      then pb_dec_fixed64 env.reader field dest
      else if l == ltype_bytes
      then pb_dec_bytes env.reader field dest
      else if l == ltype_string
      then pb_dec_string env.reader field dest
      else if l == ltype_submessage
      then pb_dec_submessage field dest
      else if l == ltype_fixed_length_bytes
      then pb_dec_fixed_length_bytes env.reader field dest
      else (λ d. fault)

  -- The address of the next free item of an array, and (*size)++.
  abbrev pub item_at : Iter → Decoding S → ℕ
  item_at iter d = iter.p_data + u32 ((current iter).data_size * load 4 iter.p_size d.mem)

  unfoldable pub count_item : Iter → Cmd (Decoding S) (Unit {0})
  count_item iter = write (λ mem. store 4 iter.p_size (load 4 iter.p_size mem + 1) mem)

  -- The loop over a packed array, lines 385 to 394, which works on the substream. Every round reads
  -- a byte at least, so a round for each byte of the substream and one more are enough.
  unfoldable pub packed_loop : ℕ → Iter → Cmd (Decoding S) (Unit {0})
  unfolding decoder_for count_item
  packed_loop zero iter d = stuck
  packed_loop (suc rounds) iter d =
      let f = current iter in
      let more = (decoder_for f (item_at iter d) >> count_item iter >> packed_loop rounds iter) d in
      if ltb 0 d.stream.bytes_left && ltb (load 4 iter.p_size d.mem) f.array_size
      then more
      else pure tt d

  unfoldable pub decode_packed : Iter → Cmd (Decoding S) (Unit {0})
  unfolding packed_loop
  decode_packed iter = do
    sub ← on_stream (pb_make_string_substream env.reader)
    (status, sub') ← in_substream sub (packed_loop (sub.bytes_left + 1) iter)
    if sub'.bytes_left == 0
        then on_stream (pb_close_string_substream env.reader sub') >> answer status
        else return_error array_overflow

  -- One item of a repeated field, lines 406 to 412.
  unfoldable pub decode_item : Iter → Cmd (Decoding S) (Unit {0})
  unfolding decoder_for count_item
  decode_item iter d =
      let f = current iter in
      if leb f.array_size (load 4 iter.p_size d.mem)
      then return_error array_overflow d
      else (count_item iter >> decoder_for f (item_at iter d)) d

  unfoldable pub decode_static_field : ℕ → Iter → Cmd (Decoding S) (Unit {0})
  unfolding decoder_for decode_packed decode_item
  decode_static_field wire_type iter =
      let f = current iter in
      let h = htype f.type in
      let func = decoder_for f iter.p_data in
      let has = if iter.p_size == iter.p_data then pure tt else write (store 1 iter.p_size 1) in
      let fresh =
        if ltype f.type == ltype_submessage
        then write (clear iter.p_data f.data_size)
          >> messages.set_to_defaults (env.fields_at f.ptr) iter.p_data
        else pure tt in
      if h == htype_required
      then func
      else if h == htype_optional
      then has >> func
      else if h == htype_repeated
      then (if wire_type == wt_string && leb (ltype f.type) ltype_last_packable
          then decode_packed iter
          else decode_item iter)
      else if h == htype_oneof
      then write (store 4 iter.p_size f.tag) >> fresh >> func
      else return_error invalid_field_type

  unfoldable pub decode_pointer_field : ℕ → Iter → Cmd (Decoding S) (Unit {0})
  decode_pointer_field wire_type iter = return_error no_malloc_support

  -- do { … } while (substream.bytes_left); lines 629 to 633. The callback may read nothing, so the
  -- rounds are bounded by the fuel alone.
  unfoldable pub callback_loop : ℕ → Cmd (Decoding S) (Unit {0}) → Cmd (Decoding S) (Unit {0})
  callback_loop zero func d = stuck
  callback_loop (suc fuel) func d = elim (func d) [
    | ok _ d' ↦
        let more = callback_loop fuel func d' in
        if d'.stream.bytes_left == 0 then ok tt d' else more
    | other ↦ other
  ]

  -- A callback field with a length: the callback runs on the substream until that is used up.
  unfoldable pub decode_callback_string :
      ℕ → Cmd (Decoding S) (Unit {0}) → Cmd (Decoding S) (Unit {0})
  unfolding callback_loop
  decode_callback_string fuel func = do
    sub ← on_stream (pb_make_string_substream env.reader)
    (status, sub') ← in_substream sub (callback_loop fuel func)
    if status
        then on_stream (pb_close_string_substream env.reader sub')
        else return_error callback_failed

  -- A callback field with a scalar value, which the callback reads from a buffer of its own.
  unfoldable pub decode_callback_scalar :
      ℕ → Cmd (Decoding S) (Unit {0}) → Cmd (Decoding S) (Unit {0})
  decode_callback_scalar wire_type func = do
    bytes ← on_stream (read_raw_value env.reader wire_type 10)
    (status, sub') ← in_substream (pb_istream_from_buffer bytes (length bytes)) func
    answer status

  unfoldable pub decode_callback_field : ℕ → ℕ → Iter → Cmd (Decoding S) (Unit {0})
  unfolding decode_callback_string decode_callback_scalar
  decode_callback_field fuel wire_type iter d =
      let decode = load 8 iter.p_data d.mem in
      let func = env.callback_at decode (current iter) (iter.p_data + 8) in
      if decode == 0
      then on_stream (pb_skip_field env.reader wire_type) d
      else if wire_type == wt_string
      then decode_callback_string fuel func d
      else decode_callback_scalar wire_type func d

  unfoldable pub decode_field : ℕ → ℕ → Iter → Cmd (Decoding S) (Unit {0})
  unfolding decode_static_field decode_pointer_field decode_callback_field
  decode_field fuel wire_type iter =
      let a = atype (current iter).type in
      if a == atype_static
      then decode_static_field wire_type iter
      else if a == atype_pointer
      then decode_pointer_field wire_type iter
      else if a == atype_callback
      then decode_callback_field fuel wire_type iter
      else return_error invalid_field_type
