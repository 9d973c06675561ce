-- ===== src/Decoder/Defaults.antt =====
-- pb_field_set_to_default and pb_message_set_to_defaults of YumQuest/Pods/nanopb/pb_decode.c, and
-- iter_from_extension. A pb_extension_t has `type` at offset 0, `dest` at 8, `next` at 16 and
-- `found` at 24.
use yum_quest.Base.{ℕ, zero, suc, ◌+◌, not, ◌&&◌, ◌||◌, List, length, ◌==◌, if◌then◌else◌}
use yum_quest.Command.{stuck, Cmd, pure, ◌>>◌}
use yum_quest.Memory.{load, load_bytes, store, store_bytes, clear}
use yum_quest.Field.{
  Field, Iter, current, field_at, begin_iter, pb_field_iter_begin, pb_field_iter_next, atype, htype,
  ltype, atype_static, atype_pointer, htype_optional, htype_repeated, htype_oneof, ltype_extension,
  ltype_submessage,
}
use yum_quest.Decoder.{Decoding, Surroundings, write}

-- iter_from_extension, for the extension at address `ext` with the descriptor array `arg`.
unfoldable pub iter_from_extension : List Field → ℕ → ℕ → Iter
iter_from_extension arg ext dest = record (begin_iter arg dest) {
  p_data = if atype (field_at arg 0).type == atype_pointer then ext + 8 else dest;
  p_size = ext + 24;
}

module _ {S : Type 0} where
  -- do { body } while (pb_field_iter_next(&iter)); over all the fields of a message.
  unfoldable pub each_field :
      (Iter → Cmd (Decoding S) (Unit {0})) → ℕ → Iter → Cmd (Decoding S) (Unit {0})
  each_field body zero iter d = stuck
  each_field body (suc rounds) iter d =
      let next = pb_field_iter_next iter in
      let more = (body iter >> each_field body rounds next.0) d in
      if next.1 then more else body iter d

  -- An array of n entries takes n rounds; one is enough for an empty array.
  unfoldable pub for_fields :
      (Iter → Cmd (Decoding S) (Unit {0})) → List Field → ℕ → Cmd (Decoding S) (Unit {0})
  unfolding each_field
  for_fields body fields dest =
      let begin = pb_field_iter_begin fields dest in
      if begin.1 then each_field body (length fields + 1) begin.0 else pure tt

module _ {S : Type 0} (env : Surroundings S) where
  -- The loop over the linked list of extensions, lines 771 to 778.
  unfoldable pub default_extensions :
      (Iter → Cmd (Decoding S) (Unit {0})) → ℕ → ℕ → Cmd (Decoding S) (Unit {0})
  unfolding iter_from_extension
  default_extensions set_default zero ext d = stuck
  default_extensions set_default (suc fuel) ext d =
      let arg = (env.extension_type_at (load 8 ext d.mem)).arg in
      let dest = load 8 (ext + 8) d.mem in
      let next = load 8 (ext + 16) d.mem in
      let step = write (store 1 (ext + 24) 0) >> set_default (iter_from_extension arg ext dest) in
      let more = (step >> default_extensions set_default fuel next) d in
      if ext == 0 then pure tt d else more

  -- The data of a static field, lines 800 to 814.
  unfoldable pub default_data :
      (Iter → Cmd (Decoding S) (Unit {0})) → Iter → Cmd (Decoding S) (Unit {0})
  unfolding for_fields
  default_data set_default iter =
      let f = current iter in
      if ltype f.type == ltype_submessage
      then for_fields set_default (env.fields_at f.ptr) iter.p_data
      else if f.ptr == 0
      then write (clear iter.p_data f.data_size)
      else write (λ mem. store_bytes iter.p_data (load_bytes f.data_size f.ptr mem) mem)

  -- A static field, lines 782 to 815.
  unfoldable pub default_static :
      (Iter → Cmd (Decoding S) (Unit {0})) → Iter → Cmd (Decoding S) (Unit {0})
  unfolding default_data
  default_static set_default iter =
      let t = (current iter).type in
      if htype t == htype_optional && not (iter.p_size == iter.p_data)
      then write (store 1 iter.p_size 0) >> default_data set_default iter
      else if htype t == htype_repeated || htype t == htype_oneof
      then write (store 4 iter.p_size 0)
      else default_data set_default iter

  -- A pointer field, lines 819 to 827.
  unfoldable pub default_pointer : Iter → Cmd (Decoding S) (Unit {0})
  default_pointer iter =
      let t = (current iter).type in
      write (store 8 iter.p_data 0)
      >> (if htype t == htype_repeated || htype t == htype_oneof
          then write (store 4 iter.p_size 0)
          else pure tt)

  -- The fuel bounds how deep submessages and extensions nest, and the length of a list of
  -- extensions.
  unfoldable pub pb_field_set_to_default : ℕ → Iter → Cmd (Decoding S) (Unit {0})
  unfolding default_extensions default_static default_pointer
  pb_field_set_to_default zero iter d = stuck
  pb_field_set_to_default (suc fuel) iter d =
      let t = (current iter).type in
      let extensions =
        default_extensions (pb_field_set_to_default fuel) fuel (load 8 iter.p_data d.mem) d in
      let static_field = default_static (pb_field_set_to_default fuel) iter d in
      if ltype t == ltype_extension
      then extensions
      else if atype t == atype_static
      then static_field
      else if atype t == atype_pointer
      then default_pointer iter d
      else pure tt d

  unfoldable pub pb_message_set_to_defaults : ℕ → List Field → ℕ → Cmd (Decoding S) (Unit {0})
  unfolding for_fields pb_field_set_to_default
  pb_message_set_to_defaults fuel fields dest =
      for_fields (pb_field_set_to_default fuel) fields dest
