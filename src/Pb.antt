-- ===== src/Pb.antt =====
-- YumQuest/Pods/nanopb/pb.h: wire types, field types, error messages and the sizes that the
-- build settings choose (PB_FIELD_32BIT, no PB_ENABLE_MALLOC, 64-bit target).
use yum_quest.Base.{ℕ, ◌+◌, ◌-◌, ◌%◌, ◌^◌, Option, none, some, leb, if◌then◌else◌}

-- The string literals that PB_RETURN_ERROR is given in pb_decode.c and pb_encode.c.
pub data ErrMsg : Type 0 where
  end_of_stream io_error varint_overflow invalid_wire_type parent_stream_too_short : ErrMsg
  array_overflow invalid_field_type no_malloc_support callback_failed : ErrMsg
  missing_required_field invalid_data_size integer_too_large bytes_overflow size_too_large : ErrMsg
  string_overflow invalid_field_descriptor incorrect_fixed_length : ErrMsg
  stream_full array_max_size_exceeded callback_error submsg_size_changed bytes_size_exceeded :
      ErrMsg

-- PB_SET_ERROR: the first message stays.
unfoldable pub set_error : Option ErrMsg → ErrMsg → Option ErrMsg
set_error none msg = some msg
set_error (some old) msg = some old

-- `pb_wire_type_t`. A tag may carry the three numbers that the enumeration does not name.
abbrev pub wt_varint : ℕ
wt_varint = 0

abbrev pub wt_64bit : ℕ
wt_64bit = 1

abbrev pub wt_string : ℕ
wt_string = 2

abbrev pub wt_32bit : ℕ
wt_32bit = 5

-- Casts to the unsigned integer types; `size_t` has 64 bits.
abbrev pub u8 : ℕ → ℕ
u8 n = n % 256

abbrev pub u32 : ℕ → ℕ
u32 n = n % 2 ^ 32

abbrev pub u64 : ℕ → ℕ
u64 n = n % 2 ^ 64

-- `a -= b` on a `size_t`, for operands below 2^64.
abbrev pub sub_size : ℕ → ℕ → ℕ
sub_size a b = if leb b a then a - b else a + 2 ^ 64 - b

-- PB_SIZE_MAX, with pb_size_t = uint32_t.
abbrev pub pb_size_max : ℕ
pb_size_max = 2 ^ 32 - 1
