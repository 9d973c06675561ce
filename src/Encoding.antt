-- ===== src/Encoding.antt =====
-- The helper functions of YumQuest/Pods/nanopb/pb_encode.c that write one number or one string:
-- pb_encode_varint, pb_encode_svarint, pb_encode_fixed32, pb_encode_fixed64, pb_encode_tag and
-- pb_encode_string.
pub mod Varint
use yum_quest.Base.{
  ℕ, zero, suc, ◌-◌, ◌*◌, ◌/◌, ◌^◌, Option, none, some, List, [], ◌∷◌, bit_and, bit_or, leb, ◌==◌,
  if◌then◌else◌, length,
}
use yum_quest.Command.{fault, Cmd, ◌>>◌}
use yum_quest.Pb.{u8, u64}
use yum_quest.Output.{OStream, Writer, pb_write}

-- The while loop of pb_encode_varint, which fills `buffer` from index 0 on; the first argument is
-- the room left in the array of ten bytes, and `none` is a write behind its end.
unfoldable pub fill_groups : ℕ → ℕ → Option (List ℕ)
fill_groups zero value = if value == 0 then some [] else none
fill_groups (suc room) value = elim (fill_groups room (value / 2 ^ 7)) [
  | none ↦ if value == 0 then some [] else none
  | some rest ↦ if value == 0 then some [] else some (u8 (bit_or (bit_and value 0x7F) 0x80) ∷ rest)
]

-- buffer[i-1] &= 0x7F
unfoldable pub clear_last : List ℕ → List ℕ
clear_last [] = []
clear_last (b ∷ []) = bit_and b 0x7F ∷ []
clear_last (b ∷ c ∷ rest) = b ∷ clear_last (c ∷ rest)

-- zigzagged = value < 0 ? ~((uint64_t)value << 1) : (uint64_t)value << 1, for the two's complement
-- pattern of `value`; ~x is 2^64 - 1 - x.
unfoldable pub zigzag : ℕ → ℕ
zigzag value = if leb (2 ^ 63) value then 2 ^ 64 - 1 - u64 (value * 2) else u64 (value * 2)

module _ {T : Type 0} (cb : Writer T) where
  unfoldable pub write_groups : Option (List ℕ) → Cmd (OStream T) (Unit {0})
  write_groups none s = fault
  write_groups (some buffer) s = pb_write cb (clear_last buffer) (length buffer) s

  unfoldable pub pb_encode_varint : ℕ → Cmd (OStream T) (Unit {0})
  unfolding write_groups fill_groups clear_last
  pb_encode_varint value =
      if leb value 0x7F then pb_write cb (u8 value ∷ []) 1 else write_groups (fill_groups 10 value)

  -- The argument is the two's complement pattern of the int64_t.
  unfoldable pub pb_encode_svarint : ℕ → Cmd (OStream T) (Unit {0})
  unfolding zigzag
  pb_encode_svarint value = pb_encode_varint (zigzag value)

  unfoldable pub pb_encode_fixed32 : ℕ → Cmd (OStream T) (Unit {0})
  pb_encode_fixed32 val =
      pb_write cb
        (bit_and val 0xFF
          ∷ bit_and (val / 2 ^ 8) 0xFF
          ∷ bit_and (val / 2 ^ 16) 0xFF
          ∷ bit_and (val / 2 ^ 24) 0xFF
          ∷ [])
        4

  unfoldable pub pb_encode_fixed64 : ℕ → Cmd (OStream T) (Unit {0})
  pb_encode_fixed64 val =
      pb_write cb
        (bit_and val 0xFF
          ∷ bit_and (val / 2 ^ 8) 0xFF
          ∷ bit_and (val / 2 ^ 16) 0xFF
          ∷ bit_and (val / 2 ^ 24) 0xFF
          ∷ bit_and (val / 2 ^ 32) 0xFF
          ∷ bit_and (val / 2 ^ 40) 0xFF
          ∷ bit_and (val / 2 ^ 48) 0xFF
          ∷ bit_and (val / 2 ^ 56) 0xFF
          ∷ [])
        8

  unfoldable pub pb_encode_tag : ℕ → ℕ → Cmd (OStream T) (Unit {0})
  pb_encode_tag wiretype field_number =
      pb_encode_varint (bit_or (u64 (field_number * 2 ^ 3)) wiretype)

  -- `bytes` is the array at `buffer`.
  unfoldable pub pb_encode_string : List ℕ → ℕ → Cmd (OStream T) (Unit {0})
  pb_encode_string bytes size = pb_encode_varint size >> pb_write cb bytes size
