-- ===== src/RoundTrip/Tests.antt =====
-- The theorems on strings and bytes of YumQuest/Pods/nanopb at concrete inputs.
use yum_quest.Base.{ℕ, ◌+◌, ◌∷◌, [], ◌≡◌, ◌<◌, refl, none, arith, if◌then◌else◌, ◌==◌}
use yum_quest.Samples.{no_reader, no_writer, place, name_field}
use yum_quest.Command.{ok}
use yum_quest.Memory.{Mem, load, load_bytes}
use yum_quest.Pb.{wt_string}
use yum_quest.Field.{Field}
use yum_quest.Encoding.{pb_encode_string}
use yum_quest.Decoding.{pb_skip_field}
use yum_quest.Encoder
use yum_quest.Encoder.{
  pb_enc_varint, pb_enc_svarint, string_length, pb_enc_string, pb_enc_bytes,
  pb_enc_fixed_length_bytes,
}
use yum_quest.Decoder.Values.{pb_dec_string, pb_dec_bytes, pb_dec_fixed_length_bytes}
use yum_quest.RoundTrip.{HasRoom, ReadsBack}
use yum_quest.RoundTrip.Strings.{skip_string_round_trip}
use yum_quest.RoundTrip.BytesFields.{bytes_field_round_trip}
use yum_quest.RoundTrip.StringFields.{
  Copies, string_field_round_trip, fixed_length_field_round_trip,
}

place-HasRoom : (n : ℕ) → n < 20 → HasRoom place n
place-HasRoom n lt = record { in_array = omega arith; in_limit = omega arith; size_t = omega arith }

-- The string "hi" at address 1000.
abbrev hi : Mem
hi a = if a == 1000 then 104 else if a == 1001 then 105 else 0

abbrev encoder : Encoder.Surroundings (Unit {0})
encoder = record {
  writer = no_writer;
  mem = hi;
  fields_at = λ p. [];
  extension_type_at = λ p. record { encode = none; arg = [] };
  callback_at = λ p f arg. ok tt;
}

abbrev zeros : Mem
zeros a = 0

skip_string_round_trip_example :
    ReadsBack
      (pb_encode_string no_writer (104 ∷ 105 ∷ []) 2)
      (pb_skip_field no_reader wt_string)
      tt
      place
skip_string_round_trip_example =
    skip_string_round_trip no_reader no_writer (104 ∷ 105 ∷ []) place (omega arith)
      (place-HasRoom 12 (omega arith))

hi_length : string_length 8 1000 hi ≡ 2
unfolding string_length
hi_length = refl

string_field_round_trip_example :
    Copies
      (pb_enc_string encoder 100 name_field 1000)
      (pb_dec_string no_reader name_field 2000)
      (λ mem.
        (load_bytes (string_length 8 1000 hi) 2000 mem
          ≡ load_bytes (string_length 8 1000 hi) 1000 hi)
        × (load 1 (2000 + string_length 8 1000 hi) mem ≡ 0))
      place
      zeros
string_field_round_trip_example =
    string_field_round_trip no_reader encoder 100 name_field 1000 2000 place zeros
      (λ e. ground (arith, e)) refl (omega (arith, hi_length)) (omega arith)
      (rw hi_length (place-HasRoom 12 (omega arith)))

fixed_length_field_round_trip_example :
    Copies
      (pb_enc_fixed_length_bytes encoder name_field 1000)
      (pb_dec_fixed_length_bytes no_reader name_field 2000)
      (λ mem. load_bytes 8 2000 mem ≡ load_bytes 8 1000 hi)
      place
      zeros
fixed_length_field_round_trip_example =
    fixed_length_field_round_trip no_reader encoder name_field 1000 2000 place zeros (omega arith)
      (omega arith) (place-HasRoom 18 (omega arith))

-- A pb_bytes_array_t at address 1000, with the bytes 104 and 105.
abbrev two_bytes : Mem
two_bytes a = if a == 1000 then 2 else if a == 1004 then 104 else if a == 1005 then 105 else 0

abbrev bytes_encoder : Encoder.Surroundings (Unit {0})
bytes_encoder = record encoder { mem = two_bytes }

abbrev bytes_field : Field
bytes_field = record name_field { type = 0x05 }

two_bytes_size : load 4 1000 two_bytes ≡ 2
unfolding load
two_bytes_size = refl

bytes_field_round_trip_example :
    Copies
      (pb_enc_bytes bytes_encoder bytes_field 1000)
      (pb_dec_bytes no_reader bytes_field 2000)
      (λ mem.
        (load 4 2000 mem ≡ load 4 1000 two_bytes)
        × (load_bytes (load 4 1000 two_bytes) 2004 mem
            ≡ load_bytes (load 4 1000 two_bytes) 1004 two_bytes))
      place
      zeros
bytes_field_round_trip_example =
    bytes_field_round_trip no_reader bytes_encoder bytes_field 1000 2000 place zeros
      (λ e. ground (arith, e)) refl (omega (arith, two_bytes_size)) (omega arith)
      (rw two_bytes_size (place-HasRoom 12 (omega arith)))
