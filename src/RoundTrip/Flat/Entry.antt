-- ===== src/RoundTrip/Flat/Entry.antt =====
-- The tag and the value of one number field: what pb_encode.c writes and how pb_decode.c reads it.
use yum_quest.Base.{ℕ, ◌+◌, ◌≤◌, ◌≡◌, Option, List, ◌++◌, length, arith}
use yum_quest.Command.{ok, Cmd}
use yum_quest.Pb.{ErrMsg}
use yum_quest.Input.Buffer.{reading}
use yum_quest.Output.{OStream}
use yum_quest.Memory.{Mem, load}
use yum_quest.Field.{Field}
use yum_quest.Encoder
use yum_quest.Encoder.{pb_encode_tag_for_field}
use yum_quest.Encoder.Fields.{encoder_for, encode_one}
use yum_quest.Decoding.{tagged, pb_decode_tag}
use yum_quest.Decoder
use yum_quest.Decoder.{Decoding, on_stream}
use yum_quest.Decoder.Fields.{Messages, decoder_for}
use yum_quest.RoundTrip.{Place, HasRoom}
use yum_quest.RoundTrip.Fields.{IsByteMemory}
use yum_quest.RoundTrip.Carries.{Writes, Writes-then, moved, moved-HasRoom, less_room}
use yum_quest.RoundTrip.Scalars.{number-Carries}
use yum_quest.RoundTrip.Tags.{number_wire_type, tag_bytes_read}
use yum_quest.RoundTrip.Flat.{IsFlat}

module _ {S T : Type 0} (denv : Decoder.Surroundings S) (messages : Messages S)
    (env : Encoder.Surroundings T) (bytes_in : IsByteMemory env.mem) (fuel : ℕ)
    (submessage : List Field → ℕ → Cmd (OStream T) (Unit {0})) where
  -- The tag and the value of a field: the bytes that are written, and how they are read.
  pub record Entry (f : Field) (src dest : ℕ) (p : Place) : Type 0 where
    pub tag_bytes : List ℕ
    pub value_bytes : List ℕ
    pub written : Writes (encode_one env fuel submessage f src) p (tag_bytes ++ value_bytes)
    pub some_byte : 1 ≤ length tag_bytes
    pub short : length tag_bytes + length value_bytes ≤ 20
    pub tag_read :
        (rest : List ℕ) (left : ℕ) (err : Option ErrMsg)
        → pb_decode_tag denv.reader (reading (tag_bytes ++ rest) (length tag_bytes + left) err)
          ≡ ok
              (tagged (record { wire_type = number_wire_type f; tag = f.tag }))
              (reading rest left err)
    pub value_read :
        (rest : List ℕ) (left : ℕ) (err : Option ErrMsg) (to : Mem)
        → (to' : Mem) × (decoder_for denv messages f dest (record {
          stream = reading (value_bytes ++ rest) (length value_bytes + left) err;
          mem = to;
        })
            ≡ ok tt (record { stream = reading rest left err; mem = to' }))
          × (load f.data_size dest to' ≡ load f.data_size src env.mem)

  pub field_bytes :
      (f : Field) (src dest : ℕ) (p : Place) → IsFlat f → HasRoom p 20 → Entry f src dest p
  unfolding encode_one
  field_bytes f src dest p h fits =
      let (tb, w, some_byte, tag_short, tag_read) =
        tag_bytes_read denv.reader env f p h.number h.tag_pos h.tag_limit
          (less_room p 10 20 (omega arith) fits) in
      let (vb, w', value_short, value_read) =
        number-Carries denv messages env bytes_in fuel submessage f src dest (moved p tb) h.number
          (moved-HasRoom p tb 10 10 fits tag_short) in
      record {
        tag_bytes = tb;
        value_bytes = vb;
        written =
            Writes-then (pb_encode_tag_for_field env f) (encoder_for env fuel submessage f src) p tb
              vb w w';
        some_byte = some_byte;
        short = omega arith;
        tag_read = tag_read;
        value_read = value_read;
      }
