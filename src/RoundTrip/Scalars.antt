-- ===== src/RoundTrip/Scalars.antt =====
-- One number field of pb_encode.c and pb_decode.c: PB_ENCODERS writes ten bytes at most for it, from
-- which PB_DECODERS gives the value back.
use yum_quest.Base.{ℕ, ◌*◌, ◌^◌, ◌≤◌, ◌<◌, ◌≡◌, refl, true, List, arith, length}
use native.Mathlib.Decide.{ℕ_discrete}
use yum_quest.Command.{Cmd}
use yum_quest.Output.{OStream, Writer}
use yum_quest.Varint.Format.{varint_bytes, length-groups}
use yum_quest.Encoding.{
  pb_encode_varint, pb_encode_svarint, pb_encode_fixed32, pb_encode_fixed64, zigzag,
}
use yum_quest.Encoding.Varint.{pb_encode_varint-groups}
use yum_quest.RoundTrip.Numbers.{zigzag-lt}
use yum_quest.Memory.{Mem, load}
use yum_quest.Field.{Field, ltype}
use yum_quest.Encoder
use yum_quest.Encoder.{
  int_size, pb_enc_varint, pb_enc_uvarint, pb_enc_svarint, pb_enc_fixed32, pb_enc_fixed64,
}
use yum_quest.Encoder.{pb_encode_tag_for_field}
use yum_quest.Encoder.Fields.{encoder_for}
use yum_quest.Decoder
use yum_quest.Decoder.{Decoding}
use yum_quest.Decoder.Values.{
  sign_extend, pb_dec_varint, pb_dec_uvarint, pb_dec_svarint, pb_dec_fixed32, pb_dec_fixed64,
}
use yum_quest.Decoder.Fields.{Messages, decoder_for}
use yum_quest.RoundTrip.{Place, HasRoom}
use yum_quest.RoundTrip.Fields.{
  IsByteMemory, Restores, load-lt, int_size-fits, uvarint_field_round_trip,
  fixed32_field_round_trip, fixed64_field_round_trip,
}
use yum_quest.RoundTrip.Signed.{
  sign_extend-Extends, varint_field_round_trip, svarint_field_round_trip,
}
use yum_quest.RoundTrip.Carries.{Writes, Carries, Restores-Carries, less_room, wrote}

-- The descriptor of a number: a type that can be packed, with a size that goes with it.
pub record IsNumber (f : Field) : Type 0 where
  pub number : ltype f.type ≤ 4
  pub sized : ltype f.type ≤ 2 → int_size f.data_size ≡ true
  pub four : ltype f.type ≡ 3 → f.data_size ≡ 4
  pub eight : ltype f.type ≡ 4 → f.data_size ≡ 8

module _ {T : Type 0} (wr : Writer T) where
  varint-wrote :
      (v : ℕ) (p : Place)
      → v < 2 ^ 64
      → HasRoom p 10
      → (bs : List ℕ) × Writes (pb_encode_varint wr v) p bs × (length bs ≤ 10)
  varint-wrote v p h fits =
      let short : length (varint_bytes v) ≤ 10 = omega (arith, length-groups 9 v) in
      (
        varint_bytes v,
        wrote wr (pb_encode_varint wr v) p (varint_bytes v) (pb_encode_varint-groups wr v h)
            (less_room p (length (varint_bytes v)) 10 short fits),
        short,
      )

module _ {S T : Type 0} (denv : Decoder.Surroundings S) (messages : Messages S)
    (env : Encoder.Surroundings T) (bytes_in : IsByteMemory env.mem) (fuel : ℕ)
    (submessage : List Field → ℕ → Cmd (OStream T) (Unit {0})) where
  value-Carries :
      (enc : Cmd (OStream T) (Unit {0})) (dec : Cmd (Decoding S) (Unit {0})) (n dest v : ℕ)
      (p : Place)
      → HasRoom p 10
      → (bytes : List ℕ) × Writes enc p bytes × (length bytes ≤ 10)
      → ((q : Place) (mem : Mem) → HasRoom q 10 → Restores enc dec n dest v q mem)
      → Carries enc dec 10 n dest v p
  value-Carries enc dec n dest v p fits (bytes, w, short) restores =
      Restores-Carries enc dec 10 n dest v p bytes fits w short restores

  varint-Carries :
      (f : Field) (src dest : ℕ) (p : Place)
      → int_size f.data_size ≡ true
      → HasRoom p 10
      → Carries
          (pb_enc_varint env f src)
          (pb_dec_varint denv.reader f dest)
          10
          f.data_size
          dest
          (load f.data_size src env.mem)
          p
  unfolding pb_enc_varint
  varint-Carries f src dest p sized fits =
      let v = load f.data_size src env.mem in
      let x = sign_extend-Extends f.data_size v sized (load-lt f.data_size src env.mem bytes_in) in
      value-Carries (pb_enc_varint env f src) (pb_dec_varint denv.reader f dest) f.data_size dest v
        p fits (rw sized (varint-wrote env.writer (sign_extend (8 * f.data_size) v) p x.in_64 fits))
        (λ q mem room. varint_field_round_trip denv.reader env f src dest q mem bytes_in sized room)

  svarint-Carries :
      (f : Field) (src dest : ℕ) (p : Place)
      → int_size f.data_size ≡ true
      → HasRoom p 10
      → Carries
          (pb_enc_svarint env f src)
          (pb_dec_svarint denv.reader f dest)
          10
          f.data_size
          dest
          (load f.data_size src env.mem)
          p
  unfolding pb_enc_svarint pb_encode_svarint
  svarint-Carries f src dest p sized fits =
      let v = load f.data_size src env.mem in
      let sv = sign_extend (8 * f.data_size) v in
      let x = sign_extend-Extends f.data_size v sized (load-lt f.data_size src env.mem bytes_in) in
      value-Carries (pb_enc_svarint env f src) (pb_dec_svarint denv.reader f dest) f.data_size dest
        v p fits (rw sized (varint-wrote env.writer (zigzag sv) p (zigzag-lt sv x.in_64) fits))
        (λ q mem room.
          svarint_field_round_trip denv.reader env f src dest q mem bytes_in sized room)

  uvarint-Carries :
      (f : Field) (src dest : ℕ) (p : Place)
      → int_size f.data_size ≡ true
      → HasRoom p 10
      → Carries
          (pb_enc_uvarint env f src)
          (pb_dec_uvarint denv.reader f dest)
          10
          f.data_size
          dest
          (load f.data_size src env.mem)
          p
  unfolding pb_enc_uvarint
  uvarint-Carries f src dest p sized fits =
      let v = load f.data_size src env.mem in
      let (below, _) =
        int_size-fits f.data_size v sized (load-lt f.data_size src env.mem bytes_in) in
      value-Carries (pb_enc_uvarint env f src) (pb_dec_uvarint denv.reader f dest) f.data_size dest
        v p fits (rw sized (varint-wrote env.writer v p below fits))
        (λ q mem room.
          uvarint_field_round_trip denv.reader env f src dest q mem bytes_in sized room)

  fixed32-Carries :
      (f : Field) (src dest : ℕ) (p : Place)
      → HasRoom p 10
      → Carries
          (pb_enc_fixed32 env f src)
          (pb_dec_fixed32 denv.reader f dest)
          10
          4
          dest
          (load 4 src env.mem)
          p
  unfolding pb_enc_fixed32 pb_encode_fixed32
  fixed32-Carries f src dest p fits =
      value-Carries (pb_enc_fixed32 env f src) (pb_dec_fixed32 denv.reader f dest) 4 dest
        (load 4 src env.mem) p fits
        (
          _,
          wrote env.writer (pb_enc_fixed32 env f src) p _ refl
              (less_room p 4 10 (omega arith) fits),
          omega arith,
        )
        (λ q mem room.
          fixed32_field_round_trip denv.reader env f src dest q mem bytes_in
            (less_room q 4 10 (omega arith) room))

  fixed64-Carries :
      (f : Field) (src dest : ℕ) (p : Place)
      → HasRoom p 10
      → Carries
          (pb_enc_fixed64 env f src)
          (pb_dec_fixed64 denv.reader f dest)
          10
          8
          dest
          (load 8 src env.mem)
          p
  unfolding pb_enc_fixed64 pb_encode_fixed64
  fixed64-Carries f src dest p fits =
      value-Carries (pb_enc_fixed64 env f src) (pb_dec_fixed64 denv.reader f dest) 8 dest
        (load 8 src env.mem) p fits
        (
          _,
          wrote env.writer (pb_enc_fixed64 env f src) p _ refl
              (less_room p 8 10 (omega arith) fits),
          omega arith,
        )
        (λ q mem room.
          fixed64_field_round_trip denv.reader env f src dest q mem bytes_in
            (less_room q 8 10 (omega arith) room))

  -- What PB_ENCODERS writes for a number, PB_DECODERS reads.
  pub number-Carries :
      (f : Field) (src dest : ℕ) (p : Place)
      → IsNumber f
      → HasRoom p 10
      → Carries
          (encoder_for env fuel submessage f src)
          (decoder_for denv messages f dest)
          10
          f.data_size
          dest
          (load f.data_size src env.mem)
          p
  unfolding encoder_for decoder_for pb_enc_fixed32 pb_dec_fixed32 pb_enc_fixed64 pb_dec_fixed64
  number-Carries f src dest p h fits = elim (ℕ_discrete (ltype f.type) 0) [
    | yes e ↦ rw e (varint-Carries f src dest p (h.sized (omega arith)) fits)
    | no l0 ↦ elim (ℕ_discrete (ltype f.type) 1) [
      | yes e ↦ rw e (uvarint-Carries f src dest p (h.sized (omega arith)) fits)
      | no l1 ↦ elim (ℕ_discrete (ltype f.type) 2) [
        | yes e ↦ rw e (svarint-Carries f src dest p (h.sized (omega arith)) fits)
        | no l2 ↦ elim (ℕ_discrete (ltype f.type) 3) [
          | yes e ↦ rw (e, h.four e) (fixed32-Carries f src dest p fits)
          | no l3 ↦
              let e : ltype f.type ≡ 4 = omega (arith, h.number) in
              rw (e, h.eight e) (fixed64-Carries f src dest p fits)
        ]
      ]
    ]
  ]
