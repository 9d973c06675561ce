-- ===== src/Encoder/Message.antt =====
-- Encoding of a message in YumQuest/Pods/nanopb/pb_encode.c: pb_encode, pb_encode_submessage,
-- pb_encode_delimited and pb_get_encoded_size.
use yum_quest.Base.{
  ℕ, zero, suc, ◌+◌, Bool, true, false, none, List, [], length, ltb, ◌==◌, if◌then◌else◌,
}
use yum_quest.Command.{Outcome, ok, fail, fault, stuck, Cmd, ◌>>◌}
use yum_quest.Pb.{u64, stream_full, submsg_size_changed}
use yum_quest.Output.{OStream, is_sizing, pb_ostream_sizing, return_error, pb_write}
use yum_quest.Encoding.{pb_encode_varint}
use yum_quest.Field.{Field, pb_field_iter_begin}
use yum_quest.Encoder.{Surroundings}
use yum_quest.Encoder.Fields.{encode_loop}

module _ {T : Type 0} (env : Surroundings T) where
  -- The fields of the stream after the second pb_encode, lines 638 to 647.
  unfoldable pub close_substream : ℕ → Bool → OStream T → Cmd (OStream T) (Unit {0})
  close_substream size status sub s =
      let s' = record s {
        bytes_written = u64 (s.bytes_written + sub.bytes_written);
        sink = sub.sink;
        errmsg = sub.errmsg;
      } in
      if sub.bytes_written == size
      then (if status then ok tt s' else fail s')
      else return_error submsg_size_changed s'

  -- The writing of the submessage, lines 623 to 647: `encode` is pb_encode on its fields.
  unfoldable pub write_submessage : Cmd (OStream T) (Unit {0}) → ℕ → Cmd (OStream T) (Unit {0})
  unfolding close_substream
  write_submessage encode size s =
      if is_sizing s.sink
      then pb_write env.writer [] size s
      else if ltb s.max_size (u64 (s.bytes_written + size))
      then return_error stream_full s
      else elim (encode (record s { max_size = size; bytes_written = 0; errmsg = none })) [
        | ok _ sub ↦ close_substream size true sub s
        | fail sub ↦ close_substream size false sub s
        | fault ↦ fault
        | stuck ↦ stuck
      ]

  -- pb_encode_submessage, where `encode` is pb_encode on the fields of the submessage.
  unfoldable pub encode_sized : Cmd (OStream T) (Unit {0}) → Cmd (OStream T) (Unit {0})
  unfolding write_submessage
  encode_sized encode s = elim (encode pb_ostream_sizing) [
    | ok _ sub ↦
        (pb_encode_varint env.writer sub.bytes_written >> write_submessage encode sub.bytes_written)
          s
    | fail sub ↦ fail (record s { errmsg = sub.errmsg })
    | fault ↦ fault
    | stuck ↦ stuck
  ]

  -- The fuel bounds how deep submessages nest, the length of a list of extensions and that of a
  -- string behind a pointer. An array of n entries takes n rounds.
  unfoldable pub pb_encode : ℕ → List Field → ℕ → Cmd (OStream T) (Unit {0})
  unfolding encode_sized
  pb_encode zero fields src s = stuck
  pb_encode (suc fuel) fields src s =
      let begin = pb_field_iter_begin fields src in
      let submessage = λ (fs : List Field) (p : ℕ). encode_sized (pb_encode fuel fs p) in
      if begin.1 then encode_loop env fuel submessage (length fields + 1) begin.0 s else ok tt s

  unfoldable pub pb_encode_submessage : ℕ → List Field → ℕ → Cmd (OStream T) (Unit {0})
  unfolding encode_sized pb_encode
  pb_encode_submessage fuel fields src = encode_sized (pb_encode fuel fields src)

  unfoldable pub pb_encode_delimited : ℕ → List Field → ℕ → Cmd (OStream T) (Unit {0})
  unfolding pb_encode_submessage
  pb_encode_delimited fuel fields src = pb_encode_submessage fuel fields src

  -- The size, or `fail` where pb_get_encoded_size returns false.
  unfoldable pub pb_get_encoded_size : ℕ → List Field → ℕ → Outcome (OStream T) ℕ
  unfolding pb_encode
  pb_get_encoded_size fuel fields src = elim (pb_encode fuel fields src pb_ostream_sizing) [
    | ok _ s ↦ ok s.bytes_written s
    | fail s ↦ fail s
    | fault ↦ fault
    | stuck ↦ stuck
  ]
