-- ===== src/Encoder.antt =====
-- The surroundings of the encoder of YumQuest/Pods/nanopb/pb_encode.c, and its field encoders for
-- one value: pb_enc_varint, pb_enc_uvarint, pb_enc_svarint, pb_enc_fixed32, pb_enc_fixed64,
-- pb_enc_bytes, pb_enc_string, pb_enc_fixed_length_bytes and pb_encode_tag_for_field. The encoder
-- reads the memory and does not write to it. An address 0 is NULL.
pub mod Fields
pub mod Message
pub mod Uniform
pub mod Implicit
mod Tests
use yum_quest.Base.{
  ℕ, zero, suc, ◌+◌, ◌*◌, Bool, ◌&&◌, ◌||◌, Option, List, [], length, ltb, leb, ◌==◌, if◌then◌else◌,
}
use yum_quest.Command.{Cmd}
use yum_quest.Pb.{
  wt_varint, wt_64bit, wt_string, wt_32bit, invalid_data_size, invalid_field_type,
  bytes_size_exceeded,
}
use yum_quest.Output.{OStream, Writer, return_error}
use yum_quest.Encoding.{
  pb_encode_varint, pb_encode_svarint, pb_encode_fixed32, pb_encode_fixed64, pb_encode_tag,
  pb_encode_string,
}
use yum_quest.Memory.{Mem, load, load_bytes}
use yum_quest.Field.{
  Field, atype, ltype, atype_static, atype_pointer, ltype_varint, ltype_uvarint, ltype_svarint,
  ltype_fixed32, ltype_fixed64, ltype_bytes, ltype_string, ltype_submessage,
  ltype_fixed_length_bytes,
}
use yum_quest.Decoder.Values.{sign_extend, bytes_alloc_size}

-- A pb_extension_type_t: `encode` is the handler of the user, if there is one, on the address of
-- the extension; `arg` is the descriptor array for the default handler.
pub record ExtensionType (T : Type 0) : Type 0 where
  pub encode : Option (ℕ → Cmd (OStream T) (Unit {0}))
  pub arg : List Field

-- What the addresses in descriptors and structs stand for: the stream callback, the descriptor
-- arrays, the extension types, and the encode callbacks, on the field and the address of `arg`;
-- and the memory.
pub record Surroundings (T : Type 0) : Type 0 where
  pub writer : Writer T
  pub mem : Mem
  pub fields_at : ℕ → List Field
  pub extension_type_at : ℕ → ExtensionType T
  pub callback_at : ℕ → Field → ℕ → Cmd (OStream T) (Unit {0})

-- The sizes that the integer encoders know.
abbrev pub int_size : ℕ → Bool
int_size n = n == 1 || n == 2 || n == 4 || n == 8

-- The number of characters before the terminator, at most `room`.
unfoldable pub string_length : ℕ → ℕ → Mem → ℕ
string_length zero p mem = 0
string_length (suc room) p mem =
    let rest = string_length room (p + 1) mem in if mem p == 0 then 0 else suc rest

module _ {T : Type 0} (env : Surroundings T) where
  unfoldable pub pb_enc_varint : Field → ℕ → Cmd (OStream T) (Unit {0})
  pb_enc_varint field src =
      if int_size field.data_size
      then pb_encode_varint env.writer
          (sign_extend (8 * field.data_size) (load field.data_size src env.mem))
      else return_error invalid_data_size

  unfoldable pub pb_enc_uvarint : Field → ℕ → Cmd (OStream T) (Unit {0})
  pb_enc_uvarint field src =
      if int_size field.data_size
      then pb_encode_varint env.writer (load field.data_size src env.mem)
      else return_error invalid_data_size

  unfoldable pub pb_enc_svarint : Field → ℕ → Cmd (OStream T) (Unit {0})
  pb_enc_svarint field src =
      if int_size field.data_size
      then pb_encode_svarint env.writer
          (sign_extend (8 * field.data_size) (load field.data_size src env.mem))
      else return_error invalid_data_size

  unfoldable pub pb_enc_fixed32 : Field → ℕ → Cmd (OStream T) (Unit {0})
  pb_enc_fixed32 field src = pb_encode_fixed32 env.writer (load 4 src env.mem)

  unfoldable pub pb_enc_fixed64 : Field → ℕ → Cmd (OStream T) (Unit {0})
  pb_enc_fixed64 field src = pb_encode_fixed64 env.writer (load 8 src env.mem)

  unfoldable pub pb_enc_bytes : Field → ℕ → Cmd (OStream T) (Unit {0})
  pb_enc_bytes field src =
      let size = load 4 src env.mem in
      if src == 0
      then pb_encode_string env.writer [] 0
      else if atype field.type == atype_static && ltb field.data_size (bytes_alloc_size size)
      then return_error bytes_size_exceeded
      else pb_encode_string env.writer (load_bytes size (src + 4) env.mem) size

  -- The bound of the loop is the field's size, and SIZE_MAX where the string is behind a pointer; it
  -- is then bounded by `longest`, the length of the longest string in memory.
  unfoldable pub pb_enc_string : ℕ → Field → ℕ → Cmd (OStream T) (Unit {0})
  unfolding string_length
  pb_enc_string longest field src =
      let max_size = if atype field.type == atype_pointer then longest else field.data_size in
      let size = string_length max_size src env.mem in
      if src == 0
      then pb_encode_string env.writer [] 0
      else pb_encode_string env.writer (load_bytes size src env.mem) size

  unfoldable pub pb_enc_fixed_length_bytes : Field → ℕ → Cmd (OStream T) (Unit {0})
  pb_enc_fixed_length_bytes field src =
      pb_encode_string env.writer (load_bytes field.data_size src env.mem) field.data_size

  unfoldable pub pb_encode_tag_for_field : Field → Cmd (OStream T) (Unit {0})
  pb_encode_tag_for_field field =
      let l = ltype field.type in
      if l == ltype_varint || l == ltype_uvarint || l == ltype_svarint
      then pb_encode_tag env.writer wt_varint field.tag
      else if l == ltype_fixed32
      then pb_encode_tag env.writer wt_32bit field.tag
      else if l == ltype_fixed64
      then pb_encode_tag env.writer wt_64bit field.tag
      else if l == ltype_bytes
          || l == ltype_string
          || l == ltype_submessage
          || l == ltype_fixed_length_bytes
      then pb_encode_tag env.writer wt_string field.tag
      else return_error invalid_field_type
