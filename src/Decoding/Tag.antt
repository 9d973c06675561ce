-- ===== src/Decoding/Tag.antt =====
-- pb_decode_tag of pb_decode.c where the stream ends before a tag does.
use yum_quest.Base.{
  ℕ, zero, suc, ◌+◌, ◌*◌, ◌<◌, ◌≤◌, ◌≡◌, Option, List, [], ◌∷◌, ◌++◌, All, bit_and, arith, length,
}
use yum_quest.Base.Bits.{mask_80}
use yum_quest.Command.{ok, fail}
use yum_quest.Pb.{ErrMsg, set_error, end_of_stream}
use yum_quest.Input.{Reader}
use yum_quest.Input.Buffer.{reading, pb_readbyte-cons, pb_readbyte-zero}
use yum_quest.Varint.{varint32_loop, pb_decode_varint32, add_group32}
use yum_quest.Varint.Format.{has_more-true}
use yum_quest.Decoding.{at_eof, pb_decode_tag}

-- Bytes after which a varint goes on.
abbrev pub Continues : ℕ → Type 0
Continues b = (128 ≤ b) × (b < 256)

module _ {S : Type 0} (cb : Reader S) where
  varint32_loop-end :
      (f p r : ℕ) (bs rest : List ℕ) (err : Option ErrMsg)
      → All Continues bs
      → length bs < f
      → p + 7 * length bs < 32
      → varint32_loop cb f p r (reading (bs ++ rest) (length bs) err)
        ≡ fail (reading rest 0 (set_error err end_of_stream))
  unfolding varint32_loop
  varint32_loop-end zero p r bs rest err all lt fits = absurd (omega arith)
  varint32_loop-end (suc f) p r [] rest err all lt fits =
      ground (arith, pb_readbyte-zero cb rest err)
  varint32_loop-end (suc f) p r (b ∷ bs) rest err all lt fits = ground (
    arith,
    pb_readbyte-cons cb b (bs ++ rest) (length bs) err,
    has_more-true b all.0.0 all.0.1,
    varint32_loop-end f (p + 7) (add_group32 r b p) bs rest err all.1 (omega arith) (omega arith),
  )

  pb_decode_varint32-end :
      (bs rest : List ℕ) (err : Option ErrMsg)
      → All Continues bs
      → length bs < 5
      → pb_decode_varint32 cb (reading (bs ++ rest) (length bs) err)
        ≡ fail (reading rest 0 (set_error err end_of_stream))
  unfolding pb_decode_varint32
  pb_decode_varint32-end [] rest err all lt = ground (arith, pb_readbyte-zero cb rest err)
  pb_decode_varint32-end (b ∷ bs) rest err all lt = ground (
    arith,
    pb_readbyte-cons cb b (bs ++ rest) (length bs) err,
    mask_80 b all.0.1,
    varint32_loop-end 5 7 (bit_and b 0x7F) bs rest err all.1 (omega arith) (omega arith),
  )

  -- Where the stream is over a buffer, has less than five bytes left, and each of them says that the
  -- varint goes on (none of them, or a tag that is cut off), pb_decode_tag reads them all and answers
  -- with `eof` set, as at the end of a message.
  pub pb_decode_tag-end :
      (bs rest : List ℕ) (err : Option ErrMsg)
      → All Continues bs
      → length bs < 5
      → pb_decode_tag cb (reading (bs ++ rest) (length bs) err)
        ≡ ok at_eof (reading rest 0 (set_error err end_of_stream))
  unfolding pb_decode_tag
  pb_decode_tag-end bs rest err all lt = ground (arith, pb_decode_varint32-end bs rest err all lt)
