-- ===== src/Decoder/Values.antt =====
-- The field decoders of YumQuest/Pods/nanopb/pb_decode.c for one value: pb_dec_varint,
-- pb_dec_uvarint, pb_dec_svarint, pb_dec_fixed32, pb_dec_fixed64, pb_dec_bytes, pb_dec_string and
-- pb_dec_fixed_length_bytes. An int64_t is kept as its 64-bit two's complement pattern.
use yum_quest.Base.{ℕ, ◌+◌, ◌-◌, ◌*◌, ◌%◌, ◌^◌, ◌||◌, ltb, ◌==◌, if◌then◌else◌}
use yum_quest.Command.{Cmd, pure, ◌>>=◌, ◌>>◌, ok, fail, fault, stuck}
use yum_quest.Pb.{
  u32, pb_size_max, invalid_data_size, integer_too_large, bytes_overflow, size_too_large,
  string_overflow, no_malloc_support, incorrect_fixed_length,
}
use yum_quest.Input.{Reader, pb_read}
use yum_quest.Varint.{pb_decode_varint, pb_decode_varint32, pb_decode_svarint}
use yum_quest.Decoding.{pb_decode_fixed32, pb_decode_fixed64}
use yum_quest.Memory.{store, store_bytes, clear}
use yum_quest.Field.{Field, atype, atype_pointer}
use yum_quest.Decoder.{Decoding, on_stream, return_error, write}

-- (int64_t)(intN_t)x: the low `bits` bits of `x`, with the sign of the highest of them.
unfoldable pub sign_extend : ℕ → ℕ → ℕ
sign_extend bits x =
    if ltb (x % 2 ^ bits) (2 ^ (bits - 1)) then x % 2 ^ bits else x % 2 ^ bits + 2 ^ 64 - 2 ^ bits

-- The value that *(intN_t*)dest reads as, for a field of `size` bytes.
abbrev pub clamp_signed : ℕ → ℕ → ℕ
clamp_signed size svalue = sign_extend (8 * size) svalue

-- PB_BYTES_ARRAY_T_ALLOCSIZE, with `bytes` at offset 4 of pb_bytes_array_t.
abbrev pub bytes_alloc_size : ℕ → ℕ
bytes_alloc_size n = n + 4

module _ {S : Type 0} (cb : Reader S) where
  -- *(intN_t*)dest = (intN_t)svalue, and the comparison with what was decoded.
  unfoldable pub store_signed : Field → ℕ → ℕ → Cmd (Decoding S) (Unit {0})
  unfolding sign_extend
  store_signed field dest svalue =
      if field.data_size == 8
        || field.data_size == 4
        || field.data_size == 2
        || field.data_size == 1
      then write (store field.data_size dest svalue)
        >> (if clamp_signed field.data_size svalue == svalue
            then pure tt
            else return_error integer_too_large)
      else return_error invalid_data_size

  unfoldable pub pb_dec_varint : Field → ℕ → Cmd (Decoding S) (Unit {0})
  unfolding store_signed sign_extend
  pb_dec_varint field dest = do
    value ← on_stream (pb_decode_varint cb)
    store_signed field dest (if field.data_size == 8 then value else sign_extend 32 value)

  unfoldable pub pb_dec_uvarint : Field → ℕ → Cmd (Decoding S) (Unit {0})
  pb_dec_uvarint field dest = do
    value ← on_stream (pb_decode_varint cb)
    if field.data_size == 8 || field.data_size == 4 || field.data_size == 2 || field.data_size == 1
        then write (store field.data_size dest value)
          >> (if value % 2 ^ (8 * field.data_size) == value
              then pure tt
              else return_error integer_too_large)
        else return_error invalid_data_size

  unfoldable pub pb_dec_svarint : Field → ℕ → Cmd (Decoding S) (Unit {0})
  unfolding store_signed
  pb_dec_svarint field dest = do
    value ← on_stream (pb_decode_svarint cb)
    store_signed field dest value

  unfoldable pub pb_dec_fixed32 : Field → ℕ → Cmd (Decoding S) (Unit {0})
  pb_dec_fixed32 field dest = do
    value ← on_stream (pb_decode_fixed32 cb)
    write (store 4 dest value)

  unfoldable pub pb_dec_fixed64 : Field → ℕ → Cmd (Decoding S) (Unit {0})
  pb_dec_fixed64 field dest = do
    value ← on_stream (pb_decode_fixed64 cb)
    write (store 8 dest value)

  -- The bytes that a callback of the user stored before it answered `false` are left out.
  unfoldable pub read_to : ℕ → ℕ → Cmd (Decoding S) (Unit {0})
  read_to dest size = do bytes ← on_stream (pb_read cb size); write (store_bytes dest bytes)

  unfoldable pub pb_dec_bytes : Field → ℕ → Cmd (Decoding S) (Unit {0})
  unfolding read_to
  pb_dec_bytes field dest = do
    size ← on_stream (pb_decode_varint32 cb)
    if ltb pb_size_max size
        then return_error bytes_overflow
        else if ltb (bytes_alloc_size size) size
        then return_error size_too_large
        else if atype field.type == atype_pointer
        then return_error no_malloc_support
        else if ltb field.data_size (bytes_alloc_size size)
        then return_error bytes_overflow
        else (write (store 4 dest size) >> read_to (dest + 4) size)

  -- status = pb_read(stream, dest, size); dest[size] = 0; return status
  unfoldable pub read_terminated : ℕ → ℕ → Cmd (Decoding S) (Unit {0})
  unfolding read_to
  read_terminated dest size d = elim (read_to dest size d) [
    | ok _ d' ↦ write (store 1 (dest + size) 0) d'
    | fail d' ↦ fail (record d' { mem = store 1 (dest + size) 0 d'.mem })
    | fault ↦ fault
    | stuck ↦ stuck
  ]

  -- `size + 1` is a uint32_t.
  unfoldable pub pb_dec_string : Field → ℕ → Cmd (Decoding S) (Unit {0})
  unfolding read_terminated
  pb_dec_string field dest = do
    size ← on_stream (pb_decode_varint32 cb)
    let alloc_size = u32 (size + 1)
    if ltb alloc_size size
        then return_error size_too_large
        else if atype field.type == atype_pointer
        then return_error no_malloc_support
        else if ltb field.data_size alloc_size
        then return_error string_overflow
        else read_terminated dest size

  unfoldable pub pb_dec_fixed_length_bytes : Field → ℕ → Cmd (Decoding S) (Unit {0})
  unfolding read_to
  pb_dec_fixed_length_bytes field dest = do
    size ← on_stream (pb_decode_varint32 cb)
    if ltb pb_size_max size
        then return_error bytes_overflow
        else if size == 0
        then write (clear dest field.data_size)
        else if size == field.data_size
        then read_to dest field.data_size
        else return_error incorrect_fixed_length
