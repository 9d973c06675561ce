-- ===== src/Varint.antt =====
-- Variable-length integers of YumQuest/Pods/nanopb: pb_decode_varint32, pb_decode_varint,
-- pb_skip_varint and pb_decode_svarint of pb_decode.c.
pub mod Format
pub mod Decode
pub mod Runs
use yum_quest.Base.{
  ℕ, zero, suc, ◌+◌, ◌-◌, ◌*◌, ◌/◌, ◌%◌, ◌^◌, Bool, bit_and, bit_or, leb, ◌==◌, if◌then◌else◌,
}
use yum_quest.Command.{stuck, Cmd, pure, ◌>>=◌}
use yum_quest.Pb.{varint_overflow, u8, u32, u64}
use yum_quest.Input.{IStream, Reader, return_error, pb_read, pb_readbyte, first_byte}

-- byte & 0x80
abbrev pub has_more : ℕ → Bool
has_more byte = if bit_and byte 0x80 == 0 then Bool.false else Bool.true

-- result | (uint32_t)(byte & 0x7F) << bitpos, and the same at 64 bits.
abbrev pub add_group32 : ℕ → ℕ → ℕ → ℕ
add_group32 result byte bitpos = bit_or result (u32 (bit_and byte 0x7F * 2 ^ bitpos))

abbrev pub add_group64 : ℕ → ℕ → ℕ → ℕ
add_group64 result byte bitpos = bit_or result (u64 (bit_and byte 0x7F * 2 ^ bitpos))

-- An int64_t is its two's complement pattern, below 2^64: ~x is 2^64 - 1 - x.
unfoldable pub unzigzag : ℕ → ℕ
unzigzag value = if bit_and value 1 == 0 then value / 2 else 2 ^ 64 - 1 - value / 2

module _ {S : Type 0} (cb : Reader S) where
  -- The do-while loop of pb_decode_varint32, lines 192 to 202. `bitpos` grows by 7 from 7 up to
  -- the test at 35, so five rounds are enough.
  unfoldable pub varint32_loop : ℕ → ℕ → ℕ → Cmd (IStream S) ℕ
  varint32_loop zero bitpos result s = stuck
  varint32_loop (suc fuel) bitpos result s =
      if leb 32 bitpos
      then return_error varint_overflow s
      else (do
        byte ← pb_readbyte cb
        let result' = add_group32 result byte bitpos
        let more = varint32_loop fuel (u8 (bitpos + 7)) result'
        if has_more byte then more else pure result')
          s

  unfoldable pub pb_decode_varint32 : Cmd (IStream S) ℕ
  unfolding varint32_loop
  pb_decode_varint32 = do
    byte ← pb_readbyte cb
    if bit_and byte 0x80 == 0 then pure byte else varint32_loop 5 7 (bit_and byte 0x7F)

  -- The do-while loop of pb_decode_varint. `bitpos` grows by 7 from 0 up to the test at 70, so
  -- eleven rounds are enough.
  unfoldable pub varint_loop : ℕ → ℕ → ℕ → Cmd (IStream S) ℕ
  varint_loop zero bitpos result s = stuck
  varint_loop (suc fuel) bitpos result s =
      if leb 64 bitpos
      then return_error varint_overflow s
      else (do
        byte ← pb_readbyte cb
        let result' = add_group64 result byte bitpos
        let more = varint_loop fuel (u8 (bitpos + 7)) result'
        if has_more byte then more else pure result')
          s

  unfoldable pub pb_decode_varint : Cmd (IStream S) ℕ
  unfolding varint_loop
  pb_decode_varint = varint_loop 11 0 0

  -- Each round of pb_skip_varint takes a byte of the stream, so a round for each byte left and one
  -- more are enough, as long as the callback leaves `bytes_left` alone.
  unfoldable pub skip_varint_loop : ℕ → Cmd (IStream S) (Unit {0})
  skip_varint_loop zero s = stuck
  skip_varint_loop (suc fuel) s =
      (do
        bytes ← pb_read cb 1
        byte ← first_byte bytes
        let more = skip_varint_loop fuel
        if has_more byte then more else pure tt)
        s

  unfoldable pub pb_skip_varint : Cmd (IStream S) (Unit {0})
  unfolding skip_varint_loop
  pb_skip_varint s = skip_varint_loop (s.bytes_left + 1) s

  -- *dest = (value & 1) ? ~(value >> 1) : value >> 1
  unfoldable pub pb_decode_svarint : Cmd (IStream S) ℕ
  unfolding unzigzag
  pb_decode_svarint = do value ← pb_decode_varint; pure (unzigzag value)
