-- ===== src/Decoding.antt =====
-- The helper functions of YumQuest/Pods/nanopb/pb_decode.c that read one number, a tag or a
-- length, skip a field, or cut a substream: pb_decode_fixed32, pb_decode_fixed64, pb_decode_tag,
-- pb_skip_string, pb_skip_field, read_raw_value, pb_make_string_substream and
-- pb_close_string_substream.
pub mod Tag
pub mod Runs
use yum_quest.Base.{
  ℕ, zero, suc, ◌-◌, ◌*◌, ◌/◌, ◌^◌, List, [], ◌∷◌, ◌++◌, bit_and, bit_or, ltb, ◌==◌, if◌then◌else◌,
  length,
}
use yum_quest.Command.{ok, fail, fault, stuck, Cmd, pure, ◌>>=◌}
use yum_quest.Pb.{
  wt_varint, wt_64bit, wt_string, wt_32bit, invalid_wire_type, parent_stream_too_short,
}
use yum_quest.Input.{IStream, Reader, return_error, pb_read, pb_read_null, first_byte}
use yum_quest.Varint.{has_more, pb_decode_varint32, pb_skip_varint}

-- What pb_decode_tag stores through its pointers.
pub record TagRead : Type 0 where
  pub wire_type : ℕ
  pub tag : ℕ

-- The three ways out of pb_decode_tag: a tag; `false` with `eof` set; `false` without.
pub data Tagged : Type 0 where
  tagged : TagRead → Tagged
  at_eof : Tagged
  bad : Tagged

-- bytes[0] | bytes[1] << 8 | bytes[2] << 16 | bytes[3] << 24
unfoldable pub join_four : (a b c d : ℕ) → ℕ
join_four a b c d = bit_or (bit_or (bit_or a (b * 2 ^ 8)) (c * 2 ^ 16)) (d * 2 ^ 24)

-- bytes[0] | bytes[1] << 8 | … | bytes[7] << 56
unfoldable pub join_eight : (a b c d e f g h : ℕ) → ℕ
unfolding join_four
join_eight a b c d e f g h =
    bit_or (bit_or (bit_or (bit_or (join_four a b c d) (e * 2 ^ 32)) (f * 2 ^ 40)) (g * 2 ^ 48))
      (h * 2 ^ 56)

module _ {S : Type 0} (cb : Reader S) where
  unfoldable pub join32 : List ℕ → Cmd (IStream S) ℕ
  unfolding join_four
  join32 (a ∷ b ∷ c ∷ d ∷ _) = pure (join_four a b c d)
  join32 _ = λ s. fault

  unfoldable pub pb_decode_fixed32 : Cmd (IStream S) ℕ
  unfolding join32
  pb_decode_fixed32 = do bytes ← pb_read cb 4; join32 bytes

  unfoldable pub join64 : List ℕ → Cmd (IStream S) ℕ
  unfolding join_eight
  join64 (a ∷ b ∷ c ∷ d ∷ e ∷ f ∷ g ∷ h ∷ _) = pure (join_eight a b c d e f g h)
  join64 _ = λ s. fault

  unfoldable pub pb_decode_fixed64 : Cmd (IStream S) ℕ
  unfolding join64
  pb_decode_fixed64 = do bytes ← pb_read cb 8; join64 bytes

  -- pb_decode_tag. Where pb_decode_varint32 fails, `eof` is set exactly if no byte is left.
  unfoldable pub pb_decode_tag : Cmd (IStream S) Tagged
  pb_decode_tag s = elim (pb_decode_varint32 cb s) [
    | ok temp s' ↦
        ok
          (if temp == 0
            then at_eof
            else tagged (record { tag = temp / 2 ^ 3; wire_type = bit_and temp 7 }))
          s'
    | fail s' ↦ ok (if s'.bytes_left == 0 then at_eof else bad) s'
    | fault ↦ fault
    | stuck ↦ stuck
  ]

  unfoldable pub pb_skip_string : Cmd (IStream S) (Unit {0})
  pb_skip_string = do length ← pb_decode_varint32 cb; pb_read_null cb length

  unfoldable pub pb_skip_field : ℕ → Cmd (IStream S) (Unit {0})
  pb_skip_field wire_type =
      if wire_type == wt_varint
      then pb_skip_varint cb
      else if wire_type == wt_64bit
      then pb_read_null cb 8
      else if wire_type == wt_string
      then pb_skip_string
      else if wire_type == wt_32bit
      then pb_read_null cb 4
      else return_error invalid_wire_type

  -- The varint case of read_raw_value: at most `max_size` bytes go to the caller's array.
  unfoldable pub raw_varint : ℕ → List ℕ → Cmd (IStream S) (List ℕ)
  raw_varint zero buf s = fail s
  raw_varint (suc room) buf s =
      (do
        bytes ← pb_read cb 1
        byte ← first_byte bytes
        let more = raw_varint room (buf ++ (byte ∷ []))
        if has_more byte then more else pure (buf ++ (byte ∷ [])))
        s

  -- read_raw_value: the bytes that it stores, as many as it reports in `*size`.
  unfoldable pub read_raw_value : ℕ → ℕ → Cmd (IStream S) (List ℕ)
  unfolding raw_varint
  read_raw_value wire_type max_size =
      if wire_type == wt_varint
      then raw_varint max_size []
      else if wire_type == wt_64bit
      then pb_read cb 8
      else if wire_type == wt_32bit
      then pb_read cb 4
      else return_error invalid_wire_type

  -- The substream comes back as the value; the stream keeps its position and loses `size` bytes.
  unfoldable pub pb_make_string_substream : Cmd (IStream S) (IStream S)
  pb_make_string_substream = do
    size ← pb_decode_varint32 cb
    λ s.
        if ltb s.bytes_left size
        then return_error parent_stream_too_short s
        else ok (record s { bytes_left = size }) (record s { bytes_left = s.bytes_left - size })

  -- What is left of the substream is read off, and the stream takes its position and message.
  unfoldable pub pb_close_string_substream : IStream S → Cmd (IStream S) (Unit {0})
  pb_close_string_substream sub s =
      elim ((if sub.bytes_left == 0 then pure tt else pb_read_null cb sub.bytes_left) sub) [
        | ok _ sub' ↦ ok tt (record s { source = sub'.source; errmsg = sub'.errmsg })
        | fail _ ↦ fail s
        | fault ↦ fault
        | stuck ↦ stuck
      ]
