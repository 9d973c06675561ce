-- ===== src/RoundTrip/Tags.antt =====
-- The tag of a number field of pb_encode.c, which pb_decode_tag of pb_decode.c reads.
use yum_quest.Base.{ℕ, ◌+◌, ◌*◌, ◌^◌, ◌≤◌, ◌<◌, ◌≡◌, Option, List, ◌++◌, arith, length}
use yum_quest.Command.{ok}
use yum_quest.Pb.{ErrMsg}
use yum_quest.Input.Buffer.{reading}
use yum_quest.Output.{Writer}
use yum_quest.Varint.Format.{varint_bytes, length-groups}
use yum_quest.Encoding.{pb_encode_varint}
use yum_quest.Encoding.Varint.{pb_encode_varint-groups}
use yum_quest.Field.{Field, ltype}
use yum_quest.Encoder
use yum_quest.Encoder.{
  int_size, pb_enc_varint, pb_enc_uvarint, pb_enc_svarint, pb_enc_fixed32, pb_enc_fixed64,
}
use yum_quest.Encoder.{pb_encode_tag_for_field}
use yum_quest.Encoding.{pb_encode_tag}
use yum_quest.Pb.{wt_varint, wt_32bit, wt_64bit, u64}
use yum_quest.Decoding.{tagged, pb_decode_tag}
use yum_quest.Base.{bit_or, ◌==◌, if◌then◌else◌}
use yum_quest.RoundTrip.Numbers.{tag_value, tag_round_trip}
use yum_quest.Input.{Reader}
use yum_quest.RoundTrip.{Place, HasRoom}
use yum_quest.RoundTrip.Carries.{Writes, with_rest, same_written, less_room, wrote}
use yum_quest.RoundTrip.Scalars.{IsNumber}

-- The wire type of a number.
abbrev pub number_wire_type : Field → ℕ
number_wire_type f =
    let l = ltype f.type in if l == 3 then wt_32bit else if l == 4 then wt_64bit else wt_varint

wire_type-lt : (f : Field) → number_wire_type f < 8
wire_type-lt f = ground arith

tag-wrote :
    {T : Type 0} (wr : Writer T) (wt n : ℕ) (p : Place)
    → wt < 8
    → n < 2 ^ 29
    → HasRoom p 10
    → (bs : List ℕ) × Writes (pb_encode_tag wr wt n) p bs × (1 ≤ length bs) × (length bs ≤ 10)
unfolding pb_encode_tag
tag-wrote wr wt n p hw hn fits =
    let t = bit_or (u64 (n * 2 ^ 3)) wt in
    let small : t < 2 ^ 64 = omega (arith, tag_value wt n hw hn) in
    (
      varint_bytes t,
      wrote wr (pb_encode_varint wr t) p (varint_bytes t) (pb_encode_varint-groups wr t small)
          (less_room p (length (varint_bytes t)) 10 (omega (arith, length-groups 9 t)) fits),
      omega (arith, length-groups 9 t),
      omega (arith, length-groups 9 t),
    )

module _ {S T : Type 0} (rd : Reader S) (env : Encoder.Surroundings T) where
  tag_for_number :
      (f : Field)
      → IsNumber f
      → pb_encode_tag_for_field env f ≡ pb_encode_tag env.writer (number_wire_type f) f.tag
  unfolding pb_encode_tag_for_field
  tag_for_number f h = ground (arith, h.number)

  -- The tag of a number field: it takes from one to ten bytes, from which pb_decode_tag has the field
  -- number and the wire type, whatever follows them.
  pub tag_bytes_read :
      (f : Field) (p : Place)
      → IsNumber f
      → 0 < f.tag
      → f.tag < 2 ^ 29
      → HasRoom p 10
      → (bytes : List ℕ) × Writes (pb_encode_tag_for_field env f) p bytes
        × (1 ≤ length bytes)
        × (length bytes ≤ 10)
        × ((rest : List ℕ) (left : ℕ) (err : Option ErrMsg)
            → pb_decode_tag rd (reading (bytes ++ rest) (length bytes + left) err)
              ≡ ok
                  (tagged (record { wire_type = number_wire_type f; tag = f.tag }))
                  (reading rest left err))
  tag_bytes_read f p h pos lt fits =
      let (bs, w, some_byte, short) =
        tag-wrote env.writer (number_wire_type f) f.tag p (wire_type-lt f) lt fits in
      (
        bs,
        rw (tag_for_number f h) w,
        some_byte,
        short,
        λ rest left err.
            let room : HasRoom (with_rest p rest left err) 10 = record {
              in_array = fits.in_array;
              in_limit = fits.in_limit;
              size_t = fits.size_t;
            } in
            let (found, w', r) =
              tag_round_trip rd env.writer (number_wire_type f) f.tag (with_rest p rest left err)
                (wire_type-lt f) pos lt room in
            rw (same_written (pb_encode_tag env.writer (number_wire_type f) f.tag) p bs found w w')
              r,
      )
